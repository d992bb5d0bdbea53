-- ===== src/Fragments/Backing.antt =====
-- What an inventory lists is stored, and what is stored is listed in one: what each write of the
-- pallet does to the two, for one instance.
use clamor.Fragments.Holding.{Holds, contains-append, contains-without}
use clamor.Exec.{items₂}
use clamor.Fragments.Types.{
  Edition, InstanceId, FragmentPerms, FragmentDefinition, FragmentInstance, PublishingData,
  FragmentBuyOptions, State,
}
use clamor.Fragments.Minting.{mint_one, mint_loop, record_unique, write_minted}
use clamor.Fragments.Effects.{part_of, spend, new_instance, existing, minted}
use clamor.Fragments.Giving.{give_copy, give_away}
use clamor.Base.{
  ℕ, zero, suc, ◌+◌, ◌-◌, ◌≡◌, refl, inl, inr, true, false, ◌&&◌, ◌||◌, Option, none, some, [], ◌∷◌,
  ◌++◌, arith, is_some, Bool-cases, Option-cases, ◌==◌, ==_iff, contains, without, nat_eq, bytes_eq,
  pair_eq,
}
use clamor.Host.{AccountId, Hash256, Hash128, BlockNumber, add_u64, Host, System}

-- the account has the instance in its inventory, and the instance is not stored
pub record IsLost (a : AccountId) (k : Hash128) (i : InstanceId) (s : State) : Type 0 where
  pub holds : Holds a k i s
  pub missing : is_some (s.fragments k i) ≡ false

-- each stored instance is in an inventory
pub record IsHeld (s : State) : Type 0 where
  pub holder :
      (k : Hash128) (i : InstanceId)
      → is_some (s.fragments k i) ≡ true
      → (a : AccountId) × Holds a k i s

-- `t` comes from `s` by writes that lose no instance, and store none without a holder
pub record Ties (s t : State) : Type 0 where
  pub lost : (a : AccountId) (k : Hash128) (i : InstanceId) → IsLost a k i t → IsLost a k i s
  pub held : IsHeld s → IsHeld t

pub Ties-trans : (s t u : State) → Ties s t → Ties t u → Ties s u
Ties-trans s t u p q = record {
  lost = λ a k i l. p.lost a k i (q.lost a k i l);
  held = λ v. q.held (p.held v);
}

pub Ties-same : (s t : State) → t.inventory ≡ s.inventory → t.fragments ≡ s.fragments → Ties s t
Ties-same s t p q = record {
  lost = λ a k i l. record { holds = rw p at l.holds; missing = rw q at l.missing };
  held = λ v. record { holder = λ k i e. let (a, h) = v.holder k i (rw q at e) in (a, rw p h) };
}

mint_one-Ties :
    (to : AccountId) (class : Hash128) (item : FragmentInstance) (id : Edition) (s : State)
    → Ties s (mint_one to class item id s)
unfolding mint_one
mint_one-Ties to class item id s =
    let more : (i : InstanceId)
        → contains (items₂ s.inventory to class ++ (id, 1) ∷ []) i
          ≡ (contains (items₂ s.inventory to class) i || (id, 1) == i) =
      λ i. contains-append i (id, 1) (items₂ s.inventory to class) in
    record {
      lost = λ a k i l. record {
        holds = ground (arith, l.holds, l.missing, more i, ==_iff to a, ==_iff class k);
        missing = ground (arith, l.missing);
      };
      held = λ v. record {
        holder = λ k i e. elim (Bool-cases (class == k && (id, 1) == i)) [
          | inl new ↦ (to, ground (arith, new, more i, ==_iff class k))
          | inr old ↦
              let (a, h) = v.holder k i (ground (arith, e, old)) in
              (a, ground (arith, h, more i, ==_iff to a, ==_iff class k))
        ];
      };
    }

mint_loop-Ties :
    (to : AccountId) (class : Hash128) (item : FragmentInstance) (n : ℕ) (first : Edition)
    (s : State)
    → Ties s (mint_loop to class item n first s)
unfolding mint_loop
mint_loop-Ties to class item zero first s = Ties-same s s refl refl
mint_loop-Ties to class item (suc n) first s =
    let t = mint_one to class item (add_u64 first 1) s in
    Ties-trans s t _ (mint_one-Ties to class item (add_u64 first 1) s)
      (mint_loop-Ties to class item n (first + 1) t)

spend-Ties :
    (class : Hash128) (sale : Option PublishingData) (n : ℕ) (s : State)
    → Ties s (spend class sale n s)
spend-Ties class none n s = Ties-same s s refl refl
spend-Ties class (some sale) n s = elim (Option-cases sale.units_left) [
  | inl e ↦ rw e (Ties-same s s refl refl)
  | inr (m, e) ↦ rw e (Ties-same s _ refl refl)
]

record_unique-Ties :
    (class : Hash128) (x : ℕ) (e : Edition) (part : Option (Hash256 × ℕ)) (s : State)
    → Ties s (record_unique class x e part s)
unfolding record_unique
record_unique-Ties class x e none s = Ties-same s s refl refl
record_unique-Ties class x e (some (hash, size)) s = Ties-same s _ refl refl

pub minted-Ties :
    (h : Host) (sys : System) (to : AccountId) (class : Hash128) (sale : Option PublishingData)
    (options : FragmentBuyOptions) (n : ℕ) (expiring_at : Option BlockNumber)
    (amount : Option Edition) (d : FragmentDefinition) (x : ℕ) (s : State)
    → Ties s (minted h sys to class sale options n expiring_at amount d x s)
unfolding minted write_minted
minted-Ties h sys to class sale options n expiring_at amount d x s =
    let first = existing class s in
    let item = new_instance h sys d options expiring_at amount in
    let t = spend class sale n s in
    let u = mint_loop to class item (add_u64 first n - first) first t in
    let v = record_unique class x first (part_of h options) u in
    Ties-trans s t _ (spend-Ties class sale n s) (
      Ties-trans t u _ (mint_loop-Ties to class item (add_u64 first n - first) first t) (
        Ties-trans u v _ (record_unique-Ties class x first (part_of h options) u)
          (Ties-same v _ refl refl)))

pub give_copy-Ties :
    (to : AccountId) (class : Hash128) (e copy : Edition) (item : FragmentInstance) (s : State)
    → Ties s (give_copy to class e copy item s)
unfolding give_copy
give_copy-Ties to class e copy item s =
    let id : InstanceId = (e, copy) in
    let more : (i : InstanceId)
        → contains (items₂ s.inventory to class ++ id ∷ []) i
          ≡ (contains (items₂ s.inventory to class) i || id == i) =
      λ i. contains-append i id (items₂ s.inventory to class) in
    record {
      lost = λ a k i l. record {
        holds = ground (arith, l.holds, l.missing, more i, ==_iff to a, ==_iff class k);
        missing = ground (arith, l.missing);
      };
      held = λ v. record {
        holder = λ k i p. elim (Bool-cases (class == k && id == i)) [
          | inl new ↦ (to, ground (arith, new, more i, ==_iff class k))
          | inr old ↦
              let (a, h) = v.holder k i (ground (arith, p, old)) in
              (a, ground (arith, h, more i, ==_iff to a, ==_iff class k))
        ];
      };
    }

pub give_away-Ties :
    (who to : AccountId) (class : Hash128) (id : InstanceId) (p : FragmentPerms) (s : State)
    → is_some (s.fragments class id) ≡ true
    → Ties s (give_away who to class id p s)
unfolding give_away
give_away-Ties who to class id p s there =
    let xs = items₂ s.inventory who class in
    let more : (i : InstanceId)
        → contains (items₂ s.inventory to class ++ id ∷ []) i
          ≡ (contains (items₂ s.inventory to class) i || id == i) =
      λ i. contains-append i id (items₂ s.inventory to class) in
    let back : (i : InstanceId)
        → contains (without id xs ++ id ∷ []) i ≡ (contains (without id xs) i || id == i) =
      λ i. contains-append i id (without id xs) in
    record {
      lost = λ a k i l. record {
        holds = ground (
          arith,
          there,
          l.holds,
          l.missing,
          more i,
          back i,
          contains-without i id xs,
          ==_iff to a,
          ==_iff who a,
          ==_iff who to,
          ==_iff class k,
          ==_iff id i,
        );
        missing = ground (arith, l.missing);
      };
      held = λ v. record {
        holder = λ k i e. elim (Bool-cases (class == k && id == i)) [
          | inl moved ↦ (to, ground (arith, moved, more i, back i, ==_iff who to, ==_iff class k))
          | inr old ↦
              let (a, h) = v.holder k i (ground (arith, e, old)) in
              (
                a,
                ground (
                  arith,
                  h,
                  old,
                  more i,
                  back i,
                  contains-without i id xs,
                  ==_iff to a,
                  ==_iff who a,
                  ==_iff who to,
                  ==_iff class k,
                ),
              )
        ];
      };
    }
