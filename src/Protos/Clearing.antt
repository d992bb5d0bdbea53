-- ===== src/Protos/Clearing.antt =====
-- The end of a block clears the stakes of the accounts that were unlinked, and no others.
use clamor.Base.{
  ◌≡◌, refl, ap, true, ◌&&◌, none, List, [], ◌∷◌, arith, if◌then◌else◌, is_some, ◌==◌, contains,
  nat_eq, bytes_eq, pair_eq,
}
use clamor.Exec.{StorageMap, remove, items, put₂}
use clamor.Host.{AccountId, Hash256}
use clamor.Protos.Types.{State, Chain, owner_eq}
use clamor.Protos.Stakes.{drop_stakes, drop_unlinked, on_finalize}

-- every stake stands in the list of the account that made it
pub record StakesListed (s : State) : Type 0 where
  pub at :
      (k : Hash256) (a : AccountId)
      → is_some (s.proto_stakes k a) ≡ true
      → contains (items s.account_stakes a) k ≡ true

drop_stakes-proto_stakes :
    (a : AccountId) (ks : List Hash256) (s : State) (k : Hash256) (b : AccountId)
    → (drop_stakes a ks s).proto_stakes k b
      ≡ (if a == b && contains ks k then none else s.proto_stakes k b)
unfolding drop_stakes
drop_stakes-proto_stakes a [] s k b = ground arith
drop_stakes-proto_stakes a (j ∷ ks) s k b = ground (
  arith,
  drop_stakes-proto_stakes a ks (record s { proto_stakes = put₂ s.proto_stakes j a none }) k b,
)

drop_stakes-account_stakes :
    (a : AccountId) (ks : List Hash256) (s : State)
    → (drop_stakes a ks s).account_stakes ≡ s.account_stakes
unfolding drop_stakes
drop_stakes-account_stakes a [] s = refl
drop_stakes-account_stakes a (j ∷ ks) s = drop_stakes-account_stakes a ks _

-- one round of `drop_unlinked`
abbrev clear : AccountId → State → State
clear a s =
    drop_stakes a (items s.account_stakes a)
      (record s { account_stakes = remove s.account_stakes a })

clear-proto_stakes :
    (a : AccountId) (s : State) (k : Hash256) (b : AccountId)
    → StakesListed s
    → (clear a s).proto_stakes k b ≡ (if a == b then none else s.proto_stakes k b)
clear-proto_stakes a s k b v = ground (
  arith,
  v.at k a,
  drop_stakes-proto_stakes a (items s.account_stakes a)
      (record s { account_stakes = remove s.account_stakes a }) k b,
)

clear-account_stakes :
    (a : AccountId) (s : State) (b : AccountId)
    → (clear a s).account_stakes b ≡ (if a == b then none else s.account_stakes b)
clear-account_stakes a s b =
    ap (λ (m : StorageMap AccountId (List Hash256)). m b)
      (drop_stakes-account_stakes a (items s.account_stakes a)
        (record s { account_stakes = remove s.account_stakes a }))

clear-StakesListed : (a : AccountId) (s : State) → StakesListed s → StakesListed (clear a s)
clear-StakesListed a s v = record {
  at = λ k b h. ground (arith, v.at k b, clear-proto_stakes a s k b v, clear-account_stakes a s b);
}

drop_unlinked-proto_stakes :
    (accounts : List AccountId) (s : State) (k : Hash256) (b : AccountId)
    → StakesListed s
    → (drop_unlinked accounts s).proto_stakes k b
      ≡ (if contains accounts b then none else s.proto_stakes k b)
unfolding drop_unlinked
drop_unlinked-proto_stakes [] s k b v = refl
drop_unlinked-proto_stakes (a ∷ accounts) s k b v = ground (
  arith,
  drop_unlinked-proto_stakes accounts (clear a s) k b (clear-StakesListed a s v),
  clear-proto_stakes a s k b v,
)

-- If every stake is listed under the account that made it, then after the end of a block the
-- accounts in the queue have no stakes at all, every other stake is as it was, and the queue is
-- empty.
pub on_finalize-proto_stakes :
    (c : Chain)
    → StakesListed c.protos
    → ((k : Hash256) (a : AccountId)
        → (on_finalize c).protos.proto_stakes k a
          ≡ (if contains c.accounts.pending_unlinks a then none else c.protos.proto_stakes k a))
      × ((on_finalize c).accounts.pending_unlinks ≡ [])
unfolding on_finalize
on_finalize-proto_stakes c v =
    (λ k a. drop_unlinked-proto_stakes c.accounts.pending_unlinks c.protos k a v, refl)

pub drop_unlinked-StakesListed :
    (accounts : List AccountId) (s : State)
    → StakesListed s
    → StakesListed (drop_unlinked accounts s)
unfolding drop_unlinked
drop_unlinked-StakesListed [] s v = v
drop_unlinked-StakesListed (a ∷ accounts) s v =
    drop_unlinked-StakesListed accounts (clear a s) (clear-StakesListed a s v)
