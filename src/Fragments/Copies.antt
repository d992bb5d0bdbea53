-- ===== src/Fragments/Copies.antt =====
-- The numbers of the copies: each one is counted.
use clamor.Exec.{StorageDoubleMap}
use clamor.Fragments.Types.{
  Edition, InstanceId, FragmentPerms, FragmentDefinition, FragmentInstance, PublishingData,
  FragmentBuyOptions, State,
}
use clamor.Fragments.Minting.{mint_one, mint_loop, record_unique, write_minted}
use clamor.Fragments.Effects.{part_of, spend, new_instance, existing, minted}
use clamor.Fragments.Giving.{give_copy, give_away, expire_item, expire_items}
use clamor.Fragments.Supply.{minted-editions}
use clamor.Fragments.Numbering.{IsNumbered}
use clamor.Fragments.GiveKeeps.{next_copy}
use clamor.Base.{
  ℕ, zero, suc, ◌+◌, ◌-◌, ◌≤◌, ◌<◌, ◌≡◌, refl, ap, ◌∙◌, inl, inr, true, ◌&&◌, Option, none, some,
  List, [], ◌∷◌, arith, ltb, leb, if◌then◌else◌, Option-cases, is_some, get_or, ◌==◌, ==_iff,
  nat_eq, bytes_eq, pair_eq,
}
use clamor.Host.{AccountId, Hash256, Hash128, BlockNumber, u64_mod, add_u64, Host, System}

pub record IsCopied (s : State) : Type 0 where
  pub counted :
      (class : Hash128) (e copy : Edition)
      → is_some (s.fragments class (e, copy)) ≡ true
      → copy ≤ get_or (s.copies_count class e) 0

abbrev pub SameCopies : State → State → Type 0
SameCopies s t = (t.fragments ≡ s.fragments) × (t.copies_count ≡ s.copies_count)

pub SameCopies-IsCopied : (s t : State) → SameCopies s t → IsCopied s → IsCopied t
SameCopies-IsCopied s t (f, n) v = record {
  counted = λ k e copy p. ground (
    arith,
    v.counted k e copy,
    ap (λ (m : StorageDoubleMap Hash128 InstanceId FragmentInstance). m k (e, copy)) f,
    ap (λ (m : StorageDoubleMap Hash128 Edition Edition). m k e) n,
    p,
  );
}

mint_loop-copies_count :
    (to : AccountId) (class : Hash128) (i : FragmentInstance) (n : ℕ) (first : Edition) (s : State)
    (k : Hash128) (e : Edition)
    → first + n < u64_mod
    → (mint_loop to class i n first s).copies_count k e
      ≡ (if class == k && ltb first e && leb e (first + n) then some 1 else s.copies_count k e)
unfolding mint_loop mint_one
mint_loop-copies_count to class i zero first s k e b = ground arith
mint_loop-copies_count to class i (suc n) first s k e b = ground (
  arith,
  mint_loop-copies_count to class i n (first + 1) (mint_one to class i (add_u64 first 1) s) k e
      (omega arith),
)

record_unique-copies_count :
    (class : Hash128) (x : ℕ) (e : Edition) (part : Option (Hash256 × ℕ)) (s : State)
    → (record_unique class x e part s).copies_count ≡ s.copies_count
unfolding record_unique
record_unique-copies_count class x e none s = refl
record_unique-copies_count class x e (some p) s = refl

spend-copies_count :
    (class : Hash128) (sale : Option PublishingData) (n : ℕ) (s : State)
    → (spend class sale n s).copies_count ≡ s.copies_count
spend-copies_count class none n s = refl
spend-copies_count class (some sale) n s = elim (Option-cases sale.units_left) [
  | inl e ↦ rw e refl
  | inr (m, e) ↦ rw e refl
]

minted-copies_count :
    (h : Host) (sys : System) (to : AccountId) (class : Hash128) (sale : Option PublishingData)
    (options : FragmentBuyOptions) (n : ℕ) (expiring_at : Option BlockNumber)
    (amount : Option Edition) (d : FragmentDefinition) (x : ℕ) (s : State) (k : Hash128)
    (e : Edition)
    → existing class s + n < u64_mod
    → (minted h sys to class sale options n expiring_at amount d x s).copies_count k e ≡ (
        if class == k && ltb (existing class s) e && leb e (existing class s + n)
        then some 1
        else s.copies_count k e)
unfolding minted write_minted
minted-copies_count h sys to class sale options n expiring_at amount d x s k e b =
    let all : add_u64 (existing class s) n - existing class s ≡ n = omega arith in
    let i = new_instance h sys d options expiring_at amount in
    let u = spend class sale n s in
    let m = mint_loop to class i n (existing class s) u in
    rw all (
      ap (λ (f : StorageDoubleMap Hash128 Edition Edition). f k e)
        (record_unique-copies_count class x (existing class s) (part_of h options) m)
      ∙ ground (
        arith,
        mint_loop-copies_count to class i n (existing class s) u k e b,
        ap (λ (f : StorageDoubleMap Hash128 Edition Edition). f k e)
            (spend-copies_count class sale n s),
      ))

pub minted-IsCopied :
    (h : Host) (sys : System) (to : AccountId) (class : Hash128) (sale : Option PublishingData)
    (options : FragmentBuyOptions) (n : ℕ) (expiring_at : Option BlockNumber)
    (amount : Option Edition) (d : FragmentDefinition) (x : ℕ) (s : State)
    → existing class s + n < u64_mod
    → IsNumbered s
    → IsCopied s
    → IsCopied (minted h sys to class sale options n expiring_at amount d x s)
minted-IsCopied h sys to class sale options n expiring_at amount d x s b w v =
    let made = (minted-editions h sys to class sale options n expiring_at amount d x s b).0 in
    record {
      counted = λ k e copy p. ground (
        arith,
        v.counted k e copy,
        w.counted k e copy,
        made k e copy,
        minted-copies_count h sys to class sale options n expiring_at amount d x s k e b,
        ==_iff class k,
        p,
      );
    }

pub give_copy-IsCopied :
    (to : AccountId) (class : Hash128) (e : Edition) (i : FragmentInstance) (s : State)
    → get_or (s.copies_count class e) 0 + 1 < u64_mod
    → IsCopied s
    → IsCopied (give_copy to class e (next_copy class e s) i s)
unfolding give_copy
give_copy-IsCopied to class e i s b v = record {
  counted = λ k f j p.
      ground
        (arith, v.counted k f j, p, ==_iff class k, ==_iff e f, ==_iff (next_copy class e s) j);
}

pub give_away-IsCopied :
    (who to : AccountId) (class : Hash128) (id : InstanceId) (p : FragmentPerms) (s : State)
    → IsCopied s
    → IsCopied (give_away who to class id p s)
unfolding give_away
give_away-IsCopied who to class id p s v = record {
  counted = λ k f j q. ground (arith, v.counted k f j, q);
}

expire_item-IsCopied :
    (owner_keys : Hash128 → List AccountId) (class : Hash128) (id : InstanceId) (s : State)
    → IsCopied s
    → IsCopied (expire_item owner_keys (class, id) s)
unfolding expire_item
expire_item-IsCopied owner_keys class id s v = record {
  counted = λ k f j p. ground (arith, v.counted k f j, p);
}

pub expire_items-IsCopied :
    (owner_keys : Hash128 → List AccountId) (ids : List (Hash128 × InstanceId)) (s : State)
    → IsCopied s
    → IsCopied (expire_items owner_keys ids s)
unfolding expire_items
expire_items-IsCopied owner_keys [] s v = v
expire_items-IsCopied owner_keys ((class, id) ∷ ids) s v =
    expire_items-IsCopied owner_keys ids (expire_item owner_keys (class, id) s)
      (expire_item-IsCopied owner_keys class id s v)
