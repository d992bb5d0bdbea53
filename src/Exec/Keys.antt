-- ===== src/Exec/Keys.antt =====
-- The sets of public keys of the pallets `accounts` and `detach`, and what the transaction pool
-- asks the host about a signed payload.
use clamor.Base.{
  ℕ, ◌≡◌, refl, Bool, not, ◌&&◌, ◌||◌, Option, List, [], ◌∷◌, arith, if◌then◌else◌, ◌==◌, ==_iff,
  contains, without, nat_eq, bytes_eq, pair_eq,
}

-- The ed25519 key that a public key of a payload stands for, and whether a signature of the
-- payload is right.
pub record PayloadChecks (Payload : Type 0) : Type 0 where
  pub ed25519_key : ℕ → Option ℕ
  pub is_signed : Payload → ℕ → Bool

-- A `BTreeSet` that is only tested for membership: its order is not modelled.
abbrev pub set_insert : ℕ → List ℕ → List ℕ
set_insert x xs = if contains xs x then xs else x ∷ xs

-- the loop of the calls that set the keys of the genesis
abbrev pub insert_keys : List ℕ → List ℕ → List ℕ
insert_keys [] keys = keys
insert_keys (k ∷ ks) keys = insert_keys ks (set_insert k keys)

pub insert_keys-contains :
    (ks keys : List ℕ) (k : ℕ)
    → contains (insert_keys ks keys) k ≡ (contains ks k || contains keys k)
insert_keys-contains [] keys k = refl
insert_keys-contains (j ∷ ks) keys k =
    ground (arith, insert_keys-contains ks (set_insert j keys) k, ==_iff j k)

pub contains-without :
    (j k : ℕ) (keys : List ℕ) → contains (without j keys) k ≡ (not (j == k) && contains keys k)
contains-without j k [] = ground arith
contains-without j k (x ∷ keys) =
    ground (arith, contains-without j k keys, ==_iff x j, ==_iff x k, ==_iff j k)
