-- ===== src/Fragments/Registry.antt =====
-- What the pallet promises of its instances: a register in which each instance has one holder.
use clamor.Exec.{StorageDoubleMap, put₂, items₂}
use clamor.Fragments.Types.{Edition, InstanceId, FragmentInstance, State}
use clamor.Fragments.Minting.{mint_one}
use clamor.Base.{
  ℕ, ◌≡◌, ap, ◌∙◌, Option, none, some, List, [], ◌∷◌, arith, if◌then◌else◌, is_some, ◌==◌, ==_iff,
  count, count-append, nat_eq, bytes_eq, pair_eq,
}
use clamor.Host.{AccountId, Hash128}

-- the holder of each instance; `none` where there is no such instance
abbrev pub Registry : Type 0
Registry = Hash128 → InstanceId → Option AccountId

-- The changes that the register allows.
pub data Step (r : Registry) : Registry → Type 0 where
  issue :
      (class : Hash128) (id : InstanceId) (a : AccountId)
      → r class id ≡ none
      → Step r (put₂ r class id (some a))
  hand_over :
      (class : Hash128) (id : InstanceId) (a b : AccountId)
      → r class id ≡ some a
      → Step r (put₂ r class id (some b))
  retire :
      (class : Hash128) (id : InstanceId) (a : AccountId)
      → r class id ≡ some a
      → Step r (put₂ r class id none)

pub data Steps : Registry → Registry → Type 0 where
  done : {r : Registry} → Steps r r
  step : {r t u : Registry} → Step r t → Steps t u → Steps r u

pub Steps-trans : {r t u : Registry} → Steps r t → Steps t u → Steps r u
Steps-trans done q = q
Steps-trans (step s p) q = step s (Steps-trans p q)

-- how often the holder of an instance has it
abbrev pub share : Option AccountId → AccountId → ℕ
share none a = 0
share (some b) a = if b == a then 1 else 0

-- `Owners` lists each instance once, under its holder, and `Fragments` has just these instances.
pub record Represents (s : State) (r : Registry) : Type 0 where
  pub held :
      (class : Hash128) (id : InstanceId) (a : AccountId)
      → count id (items₂ s.owners class a) ≡ share (r class id) a
  pub present :
      (class : Hash128) (id : InstanceId) → is_some (s.fragments class id) ≡ is_some (r class id)

-- The register goes on, by its own steps, to one that the new storage represents.
pub record Continues (r : Registry) (s : State) : Type 0 where
  pub registry : Registry
  pub steps : Steps r registry
  pub represents : Represents s registry

pub continue : (r : Registry) (s : State) → Represents s r → Continues r s
continue r s v = record { registry = r; steps = done; represents = v }

-- The register reads nothing but the owners and the instances.
pub same-Represents :
    (r : Registry) (s t : State)
    → t.owners ≡ s.owners
    → t.fragments ≡ s.fragments
    → Represents s r
    → Represents t r
same-Represents r s t o f v = record {
  held = λ k i a.
      ap (λ (m : StorageDoubleMap Hash128 AccountId (List InstanceId)). count i (items₂ m k a)) o
      ∙ v.held k i a;
  present = λ k i.
      ap (λ (m : StorageDoubleMap Hash128 InstanceId FragmentInstance). is_some (m k i)) f
      ∙ v.present k i;
}

pub same-Continues :
    (r : Registry) (s t : State)
    → t.owners ≡ s.owners
    → t.fragments ≡ s.fragments
    → Continues r s
    → Continues r t
same-Continues r s t o f c = record {
  registry = c.registry;
  steps = c.steps;
  represents = same-Represents c.registry s t o f c.represents;
}

-- A storage in which one instance is new, under the account that got it.
pub mint_one-Represents :
    (to : AccountId) (class : Hash128) (i : FragmentInstance) (id : Edition) (s : State)
    (r : Registry)
    → r class (id, 1) ≡ none
    → Represents s r
    → Represents (mint_one to class i id s) (put₂ r class (id, 1) (some to))
unfolding mint_one
mint_one-Represents to class i id s r fresh v = record {
  held = λ k j a. ground (
    arith,
    fresh,
    v.held k j a,
    v.held class j to,
    count-append j (items₂ s.owners class to) ((id, 1) ∷ []),
    ==_iff class k,
    ==_iff to a,
    ==_iff (id, 1) j,
  );
  present = λ k j. ground (arith, v.present k j);
}
