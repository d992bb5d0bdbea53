-- ===== src/Fragments/GiveKeeps.antt =====
-- What `give` may do to the storage, and the rule for a property that it keeps.
use clamor.Exec.{items₂, Origin, root, none_origin, signed}
use clamor.Fragments.Types.{Edition, FragmentPerms, FragmentInstance, State, Chain}
use clamor.Fragments.Giving.{new_perms, copy_expiration, give_copy, give_away, give}
use clamor.Base.{
  ℕ, ◌≡◌, refl, sym, subst, ◌⊎◌, inl, inr, true, Option, none, some, arith, Option-cases, is_some,
  get_or, contains, nat_eq, bytes_eq, pair_eq,
}
use clamor.Host.{AccountId, Hash128, BlockNumber, add_u64, Host, System}

-- the number of the copy that `give` makes
abbrev pub next_copy : Hash128 → Edition → State → Edition
next_copy class e s = add_u64 (get_or (s.copies_count class e) 0) 1

module _ {L : Type 0} (h : Host) (sys : System) where
  -- `give` leaves the storage alone, or copies the instance, or moves it.
  pub give-effect :
      (lookup : ℕ → Option AccountId) (a to : AccountId) (class : Hash128) (e copy : Edition)
      (target : ℕ) (wanted : Option FragmentPerms) (wish : Option BlockNumber)
      (item : FragmentInstance) (p : FragmentPerms) (c : Chain L)
      → c.fragments.fragments class (e, copy) ≡ some item
      → new_perms h item.permissions wanted ≡ some p
      → lookup target ≡ some to
      → let r = give h sys lookup (signed a) class e copy target wanted wish c in
        (r.1 ≡ c)
        ⊎ (contains (items₂ c.fragments.inventory a class) (e, copy) ≡ true
            × (r.1 ≡ record c { fragments = give_away a to class (e, copy) p c.fragments }))
        ⊎ (is_some (c.fragments.copies_count class e) ≡ true
            × (r.1 ≡ record c {
              fragments =
                  give_copy to class e
                    (next_copy class e c.fragments)
                    (record item {
                      permissions = p;
                      expiring_at = copy_expiration item.expiring_at wish;
                    })
                    c.fragments;
            }))
  unfolding give
  give-effect lookup a to class e copy target wanted wish item p c i q t = ground arith

  give-missing :
      (lookup : ℕ → Option AccountId) (a : AccountId) (class : Hash128) (e copy : Edition)
      (target : ℕ) (wanted : Option FragmentPerms) (wish : Option BlockNumber) (c : Chain L)
      → c.fragments.fragments class (e, copy) ≡ none
      → (give h sys lookup (signed a) class e copy target wanted wish c).1 ≡ c
  unfolding give
  give-missing lookup a class e copy target wanted wish c i = ground arith

  give-refused :
      (lookup : ℕ → Option AccountId) (a : AccountId) (class : Hash128) (e copy : Edition)
      (target : ℕ) (wanted : Option FragmentPerms) (wish : Option BlockNumber)
      (item : FragmentInstance) (c : Chain L)
      → c.fragments.fragments class (e, copy) ≡ some item
      → new_perms h item.permissions wanted ≡ none
      → (give h sys lookup (signed a) class e copy target wanted wish c).1 ≡ c
  unfolding give
  give-refused lookup a class e copy target wanted wish item c i q = ground arith

  give-unresolved :
      (lookup : ℕ → Option AccountId) (a : AccountId) (class : Hash128) (e copy : Edition)
      (target : ℕ) (wanted : Option FragmentPerms) (wish : Option BlockNumber) (c : Chain L)
      → lookup target ≡ none
      → (give h sys lookup (signed a) class e copy target wanted wish c).1 ≡ c
  unfolding give
  give-unresolved lookup a class e copy target wanted wish c t = ground arith

  -- What holds before `give` holds after it, if it holds of both of its writes.
  pub give-keeps :
      (lookup : ℕ → Option AccountId) (o : Origin) (class : Hash128) (e copy : Edition) (target : ℕ)
      (wanted : Option FragmentPerms) (wish : Option BlockNumber) (c : Chain L) (P : State → Type 0)
      → P c.fragments
      → ((a to : AccountId) (p : FragmentPerms) (item : FragmentInstance)
          → o ≡ signed a
          → c.fragments.fragments class (e, copy) ≡ some item
          → contains (items₂ c.fragments.inventory a class) (e, copy) ≡ true
          → P (give_away a to class (e, copy) p c.fragments))
      → ((to : AccountId) (i item : FragmentInstance)
          → c.fragments.fragments class (e, copy) ≡ some item
          → P (give_copy to class e (next_copy class e c.fragments) i c.fragments))
      → P (give h sys lookup o class e copy target wanted wish c).1.fragments
  unfolding give
  give-keeps lookup root class e copy target wanted wish c P v away copied = v
  give-keeps lookup none_origin class e copy target wanted wish c P v away copied = v
  give-keeps lookup (signed a) class e copy target wanted wish c P v away copied =
      let unchanged : (give h sys lookup (signed a) class e copy target wanted wish c).1 ≡ c
          → P (give h sys lookup (signed a) class e copy target wanted wish c).1.fragments =
        λ u. subst (λ (b : Chain L). P b.fragments) (sym u) v in
      elim (Option-cases (c.fragments.fragments class (e, copy))) [
        | inl i ↦ unchanged (give-missing lookup a class e copy target wanted wish c i)
        | inr (item, i) ↦ elim (Option-cases (new_perms h item.permissions wanted)) [
          | inl q ↦ unchanged (give-refused lookup a class e copy target wanted wish item c i q)
          | inr (p, q) ↦ elim (Option-cases (lookup target)) [
            | inl t ↦ unchanged (give-unresolved lookup a class e copy target wanted wish c t)
            | inr (to, t) ↦
                elim (give-effect lookup a to class e copy target wanted wish item p c i q t) [
                  | inl u ↦ unchanged u
                  | inr (inl (held, u)) ↦
                      subst (λ (b : Chain L). P b.fragments) (sym u) (away a to p item refl i held)
                  | inr (inr (_, u)) ↦
                      subst (λ (b : Chain L). P b.fragments) (sym u) (copied to _ item i)
                ]
          ]
        ]
      ]
