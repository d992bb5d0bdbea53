-- ===== src/Fragments/Definitions.antt =====
-- The Fragment Definitions: each is listed once, under its Proto-Fragment, which is stored; sales
-- and instances are those of a definition.
use clamor.Protos.Types as Protos
use clamor.Exec.{insert, items, append, Origin, signed}
use clamor.Fragments.Types.{
  Edition, InstanceId, FragmentPerms, FragmentMetadata, UniqueOptions, FragmentDefinition,
  definition_created, State, Chain,
}
use clamor.Fragments.Calls.{definition_hash, create, publish, unpublish}
use clamor.Base.{
  ℕ, ◌≡◌, refl, ◌∙◌, ◌⊎◌, true, ◌||◌, Option, none, some, [], ◌∷◌, ◌++◌, arith, if◌then◌else◌,
  is_some, ◌==◌, ==_iff, count, count-append, nat_eq, bytes_eq, pair_eq,
}
use clamor.Host.{AccountId, Hash256, Hash128, BlockNumber, Host, System, Currencies}

-- how often a Proto-Fragment lists a definition
abbrev pub definition_entries : Option FragmentDefinition → Hash256 → ℕ
definition_entries none k = 0
definition_entries (some d) k = if d.proto_hash == k then 1 else 0

pub record IsDefined (b : Protos.State) (s : State) : Type 0 where
  pub listed :
      (class : Hash128) (k : Hash256)
      → count class (items s.proto2fragments k) ≡ definition_entries (s.definitions class) k
  pub protos :
      (class : Hash128) (d : FragmentDefinition)
      → s.definitions class ≡ some d
      → is_some (b.protos d.proto_hash) ≡ true
  pub sales :
      (class : Hash128) → is_some (s.publishing class) ≡ true → is_some (s.definitions class) ≡ true
  pub instances :
      (class : Hash128) (id : InstanceId)
      → is_some (s.fragments class id) ≡ true
      → is_some (s.definitions class) ≡ true

-- `t` has the definitions of `s`, and sales and instances only of those
pub record Refines (s t : State) : Type 0 where
  pub lists : t.proto2fragments ≡ s.proto2fragments
  pub defined : t.definitions ≡ s.definitions
  pub on_sale :
      (class : Hash128)
      → is_some (t.publishing class) ≡ true
      → is_some (s.publishing class) || is_some (s.definitions class) ≡ true
  pub there :
      (class : Hash128) (id : InstanceId)
      → is_some (t.fragments class id) ≡ true
      → is_some (s.fragments class id) || is_some (s.definitions class) ≡ true

pub Refines-IsDefined :
    (b : Protos.State) (s t : State) → Refines s t → IsDefined b s → IsDefined b t
Refines-IsDefined b s t r v = record {
  listed = λ class k. rw (r.lists, r.defined) (v.listed class k);
  protos = λ class d e. v.protos class d (rw r.defined at e);
  sales = λ class e. ground (arith, r.defined, r.on_sale class e, v.sales class);
  instances = λ class id e. ground (arith, r.defined, r.there class id e, v.instances class id);
}

pub Refines-refl : (s : State) → Refines s s
Refines-refl s = record {
  lists = refl;
  defined = refl;
  on_sale = λ class e. ground (arith, e);
  there = λ class id e. ground (arith, e);
}

pub Refines-trans : (s t u : State) → Refines s t → Refines t u → Refines s u
Refines-trans s t u p q = record {
  lists = q.lists ∙ p.lists;
  defined = q.defined ∙ p.defined;
  on_sale = λ class e. ground (arith, q.on_sale class e, p.on_sale class, p.defined);
  there = λ class id e. ground (arith, q.there class id e, p.there class id, p.defined);
}

-- what `create` writes
abbrev pub created : Hash128 → FragmentDefinition → State → State
created class d s = record s {
  definitions = insert s.definitions class d;
  proto2fragments = append s.proto2fragments d.proto_hash class;
  events = s.events ++ definition_created class ∷ [];
}

pub created-IsDefined :
    (b : Protos.State) (class : Hash128) (d : FragmentDefinition) (s : State)
    → s.definitions class ≡ none
    → is_some (b.protos d.proto_hash) ≡ true
    → IsDefined b s
    → IsDefined b (created class d s)
created-IsDefined b class d s new stored v = record {
  listed = λ j k. ground (
    arith,
    new,
    v.listed j k,
    count-append j (items s.proto2fragments k) (class ∷ []),
    ==_iff class j,
    ==_iff d.proto_hash k,
  );
  protos = λ j e p. ground (arith, stored, v.protos j e, p);
  sales = λ j e. ground (arith, e, v.sales j);
  instances = λ j id e. ground (arith, e, v.instances j id);
}

module _ {L : Type 0} where
  pub create-effect :
      (h : Host) (currencies : Currencies L) (sys : System) (a : AccountId) (k : Hash256)
      (m : FragmentMetadata) (p : FragmentPerms) (u : Option UniqueOptions) (max : Option Edition)
      (c : Chain L)
      → let t = (create h currencies sys (signed a) k m p u max c).1.fragments in
        (t ≡ c.fragments)
        ⊎ ((c.fragments.definitions (definition_hash h k m) ≡ none)
            × (is_some (c.base.protos.protos k) ≡ true)
            × (t
                ≡ created
                    (definition_hash h k m)
                    (record {
                      proto_hash = k;
                      metadata = m;
                      permissions = p;
                      unique = u;
                      max_supply = max;
                      creator = a;
                      created_at = sys.block_number;
                    })
                    c.fragments))
  unfolding create
  create-effect h currencies sys a k m p u max c = ground arith

  pub publish-Refines :
      (o : Origin) (class : Hash128) (price : ℕ) (units : Option Edition)
      (expires : Option BlockNumber) (amount : Option Edition) (c : Chain L)
      → Refines c.fragments (publish o class price units expires amount c).1.fragments
  unfolding publish
  publish-Refines o class price units expires amount c = record {
    lists = ground arith;
    defined = ground arith;
    on_sale = λ j e. ground (arith, e, ==_iff class j);
    there = λ j id e. ground arith;
  }

  pub unpublish-Refines :
      (o : Origin) (class : Hash128) (c : Chain L)
      → Refines c.fragments (unpublish o class c).1.fragments
  unfolding unpublish
  unpublish-Refines o class c = record {
    lists = ground arith;
    defined = ground arith;
    on_sale = λ j e. ground (arith, e);
    there = λ j id e. ground arith;
  }
