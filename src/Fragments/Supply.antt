-- ===== src/Fragments/Supply.antt =====
-- The editions of a definition: which ones a mint makes, and the limit of the supply.
use clamor.Exec.{StorageMap, StorageDoubleMap}
use clamor.Fragments.Types.{
  Edition, FragmentInstance, State, InstanceId, FragmentDefinition, PublishingData,
  FragmentBuyOptions,
}
use clamor.Fragments.Minting.{mint_one, mint_loop, record_unique, write_minted}
use clamor.Fragments.Effects.{part_of, spend, new_instance, existing, minted}
use clamor.Base.{
  ℕ, zero, suc, ◌+◌, ◌<◌, ◌≡◌, ◌&&◌, some, arith, ltb, leb, if◌then◌else◌, ◌==◌, nat_eq, bytes_eq,
  pair_eq, ◌-◌, refl, ap, ◌∙◌, inl, inr, Bool, Option, none, Option-cases,
}
use clamor.Host.{AccountId, Hash128, u64_mod, add_u64, Hash256, BlockNumber, Host, System}

mint_one-fragments :
    (to : AccountId) (class : Hash128) (i : FragmentInstance) (id : Edition) (s : State)
    (k : Hash128) (e copy : Edition)
    → (mint_one to class i id s).fragments k (e, copy)
      ≡ (if class == k && id == e && copy == 1 then some i else s.fragments k (e, copy))
unfolding mint_one
mint_one-fragments to class i id s k e copy = ground arith

-- the loop makes copy 1 of the editions after `first`, up to `first + n`
mint_loop-fragments :
    (to : AccountId) (class : Hash128) (i : FragmentInstance) (n : ℕ) (first : Edition) (s : State)
    (k : Hash128) (e copy : Edition)
    → first + n < u64_mod
    → (mint_loop to class i n first s).fragments k (e, copy) ≡ (
        if class == k && copy == 1 && ltb first e && leb e (first + n)
        then some i
        else s.fragments k (e, copy))
unfolding mint_loop
mint_loop-fragments to class i zero first s k e copy b = ground arith
mint_loop-fragments to class i (suc n) first s k e copy b = ground (
  arith,
  mint_loop-fragments to class i n (first + 1) (mint_one to class i (add_u64 first 1) s) k e copy
      (omega arith),
  mint_one-fragments to class i (add_u64 first 1) s k e copy,
)

record_unique-fragments :
    (class : Hash128) (x : ℕ) (e : Edition) (part : Option (Hash256 × ℕ)) (s : State)
    → (record_unique class x e part s).fragments ≡ s.fragments
unfolding record_unique
record_unique-fragments class x e none s = refl
record_unique-fragments class x e (some p) s = refl

-- `new k e copy` for an instance that a mint of `n` editions of `class` makes after `first`
abbrev pub is_new : Hash128 → Edition → ℕ → Hash128 → Edition → Edition → Bool
is_new class first n k e copy = class == k && copy == 1 && ltb first e && leb e (first + n)

write_minted-fragments :
    (to : AccountId) (class : Hash128) (i : FragmentInstance) (n x : ℕ) (first : Edition)
    (part : Option (Hash256 × ℕ)) (s : State) (k : Hash128) (e copy : Edition)
    → first + n < u64_mod
    → (write_minted to class i n x first part s).fragments k (e, copy)
      ≡ (if is_new class first n k e copy then some i else s.fragments k (e, copy))
unfolding write_minted
write_minted-fragments to class i n x first part s k e copy b =
    let all : add_u64 first n - first ≡ n = omega arith in
    rw all (
      ap (λ (m : StorageDoubleMap Hash128 InstanceId FragmentInstance). m k (e, copy))
        (record_unique-fragments class x first part (mint_loop to class i n first s))
      ∙ mint_loop-fragments to class i n first s k e copy b)

mint_loop-editions_count :
    (to : AccountId) (class : Hash128) (i : FragmentInstance) (n : ℕ) (first : Edition) (s : State)
    → (mint_loop to class i n first s).editions_count ≡ s.editions_count
unfolding mint_loop mint_one
mint_loop-editions_count to class i zero first s = refl
mint_loop-editions_count to class i (suc n) first s =
    mint_loop-editions_count to class i n (first + 1) (mint_one to class i (add_u64 first 1) s)

record_unique-editions_count :
    (class : Hash128) (x : ℕ) (e : Edition) (part : Option (Hash256 × ℕ)) (s : State)
    → (record_unique class x e part s).editions_count ≡ s.editions_count
unfolding record_unique
record_unique-editions_count class x e none s = refl
record_unique-editions_count class x e (some p) s = refl

write_minted-editions_count :
    (to : AccountId) (class : Hash128) (i : FragmentInstance) (n x : ℕ) (first : Edition)
    (part : Option (Hash256 × ℕ)) (s : State) (k : Hash128)
    → (write_minted to class i n x first part s).editions_count k
      ≡ (if class == k then some (add_u64 first n) else s.editions_count k)
unfolding write_minted
write_minted-editions_count to class i n x first part s k =
    let m = mint_loop to class i (add_u64 first n - first) first s in
    let same : (record_unique class x first part m).editions_count k ≡ s.editions_count k =
      ap (λ (f : StorageMap Hash128 Edition). f k)
        (record_unique-editions_count class x first part m
          ∙ mint_loop-editions_count to class i (add_u64 first n - first) first s) in
    ground (arith, same)

spend-fragments :
    (class : Hash128) (sale : Option PublishingData) (n : ℕ) (s : State)
    → ((spend class sale n s).fragments ≡ s.fragments)
      × ((spend class sale n s).editions_count ≡ s.editions_count)
spend-fragments class none n s = (refl, refl)
spend-fragments class (some sale) n s = elim (Option-cases sale.units_left) [
  | inl e ↦ rw e (refl, refl)
  | inr (m, e) ↦ rw e (refl, refl)
]

-- What a successful mint writes: the editions that it makes, and their count.
pub minted-editions :
    (h : Host) (sys : System) (to : AccountId) (class : Hash128) (sale : Option PublishingData)
    (options : FragmentBuyOptions) (n : ℕ) (expiring_at : Option BlockNumber)
    (amount : Option Edition) (d : FragmentDefinition) (x : ℕ) (s : State)
    → existing class s + n < u64_mod
    → let t = minted h sys to class sale options n expiring_at amount d x s in
      ((k : Hash128) (e copy : Edition)
        → t.fragments k (e, copy) ≡ (
            if is_new class (existing class s) n k e copy
            then some (new_instance h sys d options expiring_at amount)
            else s.fragments k (e, copy)))
      × ((k : Hash128)
          → t.editions_count k
            ≡ (if class == k then some (existing class s + n) else s.editions_count k))
unfolding minted
minted-editions h sys to class sale options n expiring_at amount d x s b =
    let i = new_instance h sys d options expiring_at amount in
    let u = spend class sale n s in
    let (p, q) = spend-fragments class sale n s in
    let total : add_u64 (existing class s) n ≡ existing class s + n = omega arith in
    (
      λ k e copy. ground (
        arith,
        write_minted-fragments to class i n x (existing class s) (part_of h options) u k e copy b,
        ap (λ (m : StorageDoubleMap Hash128 InstanceId FragmentInstance). m k (e, copy)) p,
      ),
      λ k. ground (
        arith,
        write_minted-editions_count to class i n x (existing class s) (part_of h options) u k,
        ap (λ (m : StorageMap Hash128 Edition). m k) q,
      ),
    )
