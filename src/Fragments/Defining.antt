-- ===== src/Fragments/Defining.antt =====
-- The calls of the pallet, and the ends of blocks, make sales and instances only of definitions.
use clamor.Protos.Types as Protos
use clamor.Fragments.Definitions.{
  IsDefined, Refines, Refines-IsDefined, Refines-refl, Refines-trans, created-IsDefined,
  create-effect, publish-Refines, unpublish-Refines,
}
use clamor.Exec.{remove, items, put₂, Origin, root, none_origin, signed}
use clamor.Fragments.Types.{
  Edition, InstanceId, FragmentPerms, FragmentDefinition, FragmentInstance, PublishingData,
  FragmentBuyOptions, State, Chain,
}
use clamor.Fragments.Minting.{mint_one, mint_loop, record_unique, write_minted}
use clamor.Fragments.Calls.{instances_of, create, create_account}
use clamor.Fragments.Effects.{part_of, spend, new_instance, existing, minted}
use clamor.Fragments.Giving.{
  give_copy, give_away, find_owner, take_from, expire_item, expire_items, on_finalize,
}
use clamor.Fragments.Keeps.{mint-keeps, buy-keeps}
use clamor.Fragments.GiveKeeps.{next_copy, give-keeps}
use clamor.Fragments.Runs.{
  Extrinsic, create_call, publish_call, unpublish_call, mint_call, buy_call, give_call,
  create_account_call, Outside, dispatch,
}
use clamor.Base.{
  ℕ, zero, suc, ◌+◌, ◌-◌, ◌≡◌, refl, sym, subst, ◌⊎◌, inl, inr, true, Option, none, some, List, [],
  ◌∷◌, arith, Option-cases, is_some, ==_iff, nat_eq, bytes_eq, pair_eq,
}
use clamor.Host.{AccountId, Hash256, Hash128, BlockNumber, add_u64, Host, System, Currencies}

mint_loop-Refines :
    (to : AccountId) (class : Hash128) (i : FragmentInstance) (n : ℕ) (first : Edition) (s : State)
    → is_some (s.definitions class) ≡ true
    → Refines s (mint_loop to class i n first s)
unfolding mint_loop mint_one
mint_loop-Refines to class i zero first s d = Refines-refl s
mint_loop-Refines to class i (suc n) first s d =
    let t = mint_one to class i (add_u64 first 1) s in
    let one : Refines s t = record {
      lists = refl;
      defined = refl;
      on_sale = λ j e. ground (arith, e);
      there = λ j id e. ground (arith, e, d, ==_iff class j);
    } in
    Refines-trans s t _ one (mint_loop-Refines to class i n (first + 1) t d)

spend-Refines :
    (class : Hash128) (sale : Option PublishingData) (n : ℕ) (s : State)
    → Refines s (spend class sale n s)
spend-Refines class none n s = Refines-refl s
spend-Refines class (some sale) n s = elim (Option-cases sale.units_left) [
  | inl e ↦ rw e (Refines-refl s)
  | inr (m, e) ↦ rw e (record {
    lists = refl;
    defined = refl;
    on_sale = λ j p. ground (arith, p);
    there = λ j id p. ground (arith, p);
  })
]

record_unique-Refines :
    (class : Hash128) (x : ℕ) (e : Edition) (part : Option (Hash256 × ℕ)) (s t : State)
    → Refines s t
    → Refines s (record_unique class x e part t)
unfolding record_unique
record_unique-Refines class x e none s t r = r
record_unique-Refines class x e (some (k, size)) s t r = record {
  lists = r.lists;
  defined = r.defined;
  on_sale = r.on_sale;
  there = r.there;
}

write_minted-Refines :
    (to : AccountId) (class : Hash128) (i : FragmentInstance) (n x : ℕ) (e : Edition)
    (part : Option (Hash256 × ℕ)) (s : State)
    → is_some (s.definitions class) ≡ true
    → Refines s (write_minted to class i n x e part s)
unfolding write_minted
write_minted-Refines to class i n x e part s d =
    let t = mint_loop to class i (add_u64 e n - e) e s in
    let r =
      record_unique-Refines class x e part s t
        (mint_loop-Refines to class i (add_u64 e n - e) e s d) in
    record { lists = r.lists; defined = r.defined; on_sale = r.on_sale; there = r.there }

minted-Refines :
    (h : Host) (sys : System) (to : AccountId) (class : Hash128) (sale : Option PublishingData)
    (options : FragmentBuyOptions) (n : ℕ) (expiring_at : Option BlockNumber)
    (amount : Option Edition) (d : FragmentDefinition) (x : ℕ) (s : State)
    → s.definitions class ≡ some d
    → Refines s (minted h sys to class sale options n expiring_at amount d x s)
unfolding minted
minted-Refines h sys to class sale options n expiring_at amount d x s e =
    let spent = spend-Refines class sale n s in
    let t = spend class sale n s in
    Refines-trans s t _ spent (
      write_minted-Refines to class (new_instance h sys d options expiring_at amount) n x
        (existing class s) (part_of h options) t (ground (arith, spent.defined, e)))

give_away-Refines :
    (a to : AccountId) (class : Hash128) (id : InstanceId) (p : FragmentPerms) (s : State)
    → Refines s (give_away a to class id p s)
unfolding give_away
give_away-Refines a to class id p s = record {
  lists = refl;
  defined = refl;
  on_sale = λ j e. ground (arith, e);
  there = λ j i e. ground (arith, e);
}

give_copy-Refines :
    (to : AccountId) (class : Hash128) (e copy : Edition) (i : FragmentInstance) (s : State)
    → is_some (s.definitions class) ≡ true
    → Refines s (give_copy to class e copy i s)
unfolding give_copy
give_copy-Refines to class e copy i s d = record {
  lists = refl;
  defined = refl;
  on_sale = λ j p. ground (arith, p);
  there = λ j id p. ground (arith, p, d, ==_iff class j);
}

take_from-Refines :
    (o : Option AccountId) (class : Hash128) (id : InstanceId) (s t : State)
    → Refines s t
    → Refines s (take_from o class id t)
take_from-Refines none class id s t r = r
take_from-Refines (some a) class id s t r = record {
  lists = r.lists;
  defined = r.defined;
  on_sale = r.on_sale;
  there = r.there;
}

expire_items-Refines :
    (owner_keys : Hash128 → List AccountId) (xs : List (Hash128 × InstanceId)) (s : State)
    → Refines s (expire_items owner_keys xs s)
unfolding expire_items expire_item
expire_items-Refines owner_keys [] s = Refines-refl s
expire_items-Refines owner_keys ((class, id) ∷ xs) s =
    let u = record s { fragments = put₂ s.fragments class id none } in
    let gone : Refines s u = record {
      lists = refl;
      defined = refl;
      on_sale = λ j e. ground (arith, e);
      there = λ j i e. ground (arith, e);
    } in
    Refines-trans s _ _
      (take_from-Refines (find_owner (owner_keys class) class id s) class id s u gone)
      (expire_items-Refines owner_keys xs _)

create_account-Refines :
    {L : Type 0} (h : Host) (currencies : Currencies L) (o : Origin) (class : Hash128)
    (e copy : Edition) (c : Chain L)
    → Refines c.fragments (create_account h currencies o class e copy c).1.fragments
unfolding create_account
create_account-Refines h currencies o class e copy c = record {
  lists = ground arith;
  defined = ground arith;
  on_sale = λ j p. ground (arith, p);
  there = λ j id p. ground (arith, p);
}

module _ {L : Type 0} (h : Host) (w : Outside L) where
  dispatched-Refines :
      (sys : System) (o : Origin) (x : Extrinsic) (c : Chain L)
      → IsDefined c.base.protos c.fragments
      → Refines c.fragments (dispatch h w sys o x c).1.fragments
        ⊎ IsDefined c.base.protos (dispatch h w sys o x c).1.fragments
  unfolding dispatch create
  dispatched-Refines sys root (create_call k m p u max) c v = inl (Refines-refl c.fragments)
  dispatched-Refines sys none_origin (create_call k m p u max) c v = inl (Refines-refl c.fragments)
  dispatched-Refines sys (signed a) (create_call k m p u max) c v =
      elim (create-effect h w.currencies sys a k m p u max c) [
        | inl e ↦ inl (subst (Refines c.fragments) (sym e) (Refines-refl c.fragments))
        | inr (new, stored, e) ↦ inr (
            subst (IsDefined c.base.protos) (sym e)
              (created-IsDefined c.base.protos _ _ c.fragments new stored v))
      ]
  dispatched-Refines sys o (publish_call class price units expires amount) c v =
      inl (publish-Refines o class price units expires amount c)
  dispatched-Refines sys o (unpublish_call class) c v = inl (unpublish-Refines o class c)
  dispatched-Refines sys o (mint_call class options amount) c v = inl (
      mint-keeps h sys o class options amount c (Refines c.fragments) (Refines-refl c.fragments)
        (λ a d x e.
          minted-Refines h sys a class none options (instances_of options) none amount d x
            c.fragments e))
  dispatched-Refines sys o (buy_call class options) c v = inl (
      buy-keeps h sys w.currencies o class options c (Refines c.fragments)
        (Refines-refl c.fragments)
        (λ a sale d x e.
          minted-Refines h sys a class (some sale) options (instances_of options) none sale.amount d
            x c.fragments e))
  dispatched-Refines sys o (give_call class e copy target p wish) c v = inl (
      give-keeps h sys w.lookup o class e copy target p wish c (Refines c.fragments)
        (Refines-refl c.fragments)
        (λ a to q item _ _ _. give_away-Refines a to class (e, copy) q c.fragments)
        (λ to i item there.
          give_copy-Refines to class e (next_copy class e c.fragments) i c.fragments
            (v.instances class (e, copy) (ground (arith, there)))))
  dispatched-Refines sys o (create_account_call class e copy) c v =
      inl (create_account-Refines h w.currencies o class e copy c)

  pub dispatch-IsDefined :
      (sys : System) (o : Origin) (x : Extrinsic) (c : Chain L)
      → IsDefined c.base.protos c.fragments
      → IsDefined c.base.protos (dispatch h w sys o x c).1.fragments
  dispatch-IsDefined sys o x c v = elim (dispatched-Refines sys o x c v) [
    | inl r ↦ Refines-IsDefined c.base.protos c.fragments _ r v
    | inr d ↦ d
  ]

  pub on_finalize-IsDefined :
      (b : Protos.State) (n : BlockNumber) (s : State)
      → IsDefined b s
      → IsDefined b (on_finalize w.owner_keys n s)
  unfolding on_finalize
  on_finalize-IsDefined b n s v =
      let t = record s { expirations = remove s.expirations n } in
      let start : Refines s t = record {
        lists = refl;
        defined = refl;
        on_sale = λ j e. ground (arith, e);
        there = λ j i e. ground (arith, e);
      } in
      Refines-IsDefined b s _
        (Refines-trans s t _ start (expire_items-Refines w.owner_keys (items s.expirations n) t)) v
