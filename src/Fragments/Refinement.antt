-- ===== src/Fragments/Refinement.antt =====
-- The pallet keeps the register of instances: whatever is called, what it stores goes on from one
-- register to the next by the register's own steps.
use clamor.Exec.{items₂, Origin, remove, items}
use clamor.Fragments.Types.{
  Edition, FragmentDefinition, PublishingData, FragmentBuyOptions, State, Chain,
}
use clamor.Fragments.Minting.{mint_loop, record_unique, write_minted}
use clamor.Fragments.Calls.{instances_of}
use clamor.Fragments.Effects.{part_of, spend, new_instance, existing, minted}
use clamor.Fragments.Giving.{on_finalize}
use clamor.Fragments.Keeps.{mint-keeps, buy-keeps}
use clamor.Fragments.GiveKeeps.{next_copy, give-keeps}
use clamor.Fragments.Untouched.{
  create-SameInstances, publish-SameInstances, unpublish-SameInstances,
  create_account-SameInstances,
}
use clamor.Fragments.Runs.{
  Extrinsic, create_call, publish_call, unpublish_call, mint_call, buy_call, give_call,
  create_account_call, Action, call, block_end, Outside, dispatch, apply, run,
}
use clamor.Fragments.Numbering.{IsNumbered, InRange}
use clamor.Fragments.Registry.{
  Registry, Represents, Continues, continue, same-Continues, same-Represents, Steps-trans,
}
use clamor.Fragments.Registering.{
  mint_loop-Continues, give_copy-Continues, holder, give_away-Continues,
}
use clamor.Fragments.Retiring.{expire_items-Continues}
use clamor.Fragments.Soundness.{IsSound, Fits, AllFit, apply-IsSound}
use clamor.Base.{
  ℕ, ◌+◌, ◌-◌, ◌<◌, ◌≡◌, refl, inl, inr, Option, none, some, List, [], ◌∷◌, arith, Option-cases,
  nat_eq, bytes_eq, pair_eq, ==_refl, count-contains,
}
use clamor.Host.{AccountId, Hash256, Hash128, BlockNumber, u64_mod, add_u64, Host, System}

record_unique-same :
    (class : Hash128) (x : ℕ) (e : Edition) (part : Option (Hash256 × ℕ)) (s : State)
    → ((record_unique class x e part s).owners ≡ s.owners)
      × ((record_unique class x e part s).fragments ≡ s.fragments)
unfolding record_unique
record_unique-same class x e none s = (refl, refl)
record_unique-same class x e (some p) s = (refl, refl)

spend-same :
    (class : Hash128) (sale : Option PublishingData) (n : ℕ) (s : State)
    → ((spend class sale n s).owners ≡ s.owners) × ((spend class sale n s).fragments ≡ s.fragments)
spend-same class none n s = (refl, refl)
spend-same class (some sale) n s = elim (Option-cases sale.units_left) [
  | inl e ↦ rw e (refl, refl)
  | inr (m, e) ↦ rw e (refl, refl)
]

minted-Continues :
    (h : Host) (sys : System) (to : AccountId) (class : Hash128) (sale : Option PublishingData)
    (options : FragmentBuyOptions) (n : ℕ) (expiring_at : Option BlockNumber)
    (amount : Option Edition) (d : FragmentDefinition) (x : ℕ) (s : State) (r : Registry)
    → existing class s + n < u64_mod
    → IsNumbered s
    → Represents s r
    → Continues r (minted h sys to class sale options n expiring_at amount d x s)
unfolding minted write_minted
minted-Continues h sys to class sale options n expiring_at amount d x s r b w v =
    let first = existing class s in
    let all : add_u64 first n - first ≡ n = omega arith in
    let i = new_instance h sys d options expiring_at amount in
    let u = spend class sale n s in
    let (o, f) = spend-same class sale n s in
    let (p, q) =
      record_unique-same class x first (part_of h options)
        (mint_loop to class i (add_u64 first n - first) first u) in
    let spent : Represents u r = same-Represents r s u o f v in
    same-Continues r (mint_loop to class i (add_u64 first n - first) first u) _ p q (
      mint_loop-Continues to class i (add_u64 first n - first) first u r (omega arith)
        (λ e later. ground (arith, v.present class (e, 1), w.counted class e 1)) spent)

module _ {L : Type 0} (h : Host) (w : Outside L) where
  dispatch-Continues :
      (sys : System) (o : Origin) (x : Extrinsic) (c : Chain L) (r : Registry)
      → InRange (call sys o x) c
      → Fits h w (call sys o x) c
      → IsSound c.fragments
      → Represents c.fragments r
      → Continues r (dispatch h w sys o x c).1.fragments
  unfolding dispatch InRange Fits
  dispatch-Continues sys o (create_call k m p u max) c r b f s v =
      let same = create-SameInstances h w.currencies sys o k m p u max c in
      same-Continues r c.fragments _ same.0 same.2 (continue r c.fragments v)
  dispatch-Continues sys o (publish_call class price units expires amount) c r b f s v =
      let same = publish-SameInstances o class price units expires amount c in
      same-Continues r c.fragments _ same.0 same.2 (continue r c.fragments v)
  dispatch-Continues sys o (unpublish_call class) c r b f s v =
      let same = unpublish-SameInstances o class c in
      same-Continues r c.fragments _ same.0 same.2 (continue r c.fragments v)
  dispatch-Continues sys o (mint_call class options amount) c r b f s v =
      mint-keeps h sys o class options amount c (Continues r) (continue r c.fragments v) (λ a d x _.
        minted-Continues h sys a class none options (instances_of options) none amount d x
          c.fragments r b s.numbered v)
  dispatch-Continues sys o (buy_call class options) c r b f s v =
      buy-keeps h sys w.currencies o class options c (Continues r) (continue r c.fragments v)
        (λ a sale d x _.
          minted-Continues h sys a class (some sale) options (instances_of options) none sale.amount
            d x c.fragments r b s.numbered v)
  dispatch-Continues sys o (give_call class e copy target p wish) c r b f s v =
      give-keeps h sys w.lookup o class e copy target p wish c (Continues r)
        (continue r c.fragments v)
        (λ a to q item _ _ held.
          give_away-Continues a to class (e, copy) q c.fragments r
            (holder c.fragments r class (e, copy) a v (ground (arith, s.mirrored.same class a))) v)
        (λ to i item _.
          give_copy-Continues to class e (next_copy class e c.fragments) i c.fragments r
            (ground (
              arith,
              v.present class (e, next_copy class e c.fragments),
              s.copied.counted class e (next_copy class e c.fragments),
            ))
            v)
  dispatch-Continues sys o (create_account_call class e copy) c r b f s v =
      let same = create_account-SameInstances h w.currencies o class e copy c in
      same-Continues r c.fragments _ same.0 same.2 (continue r c.fragments v)

  on_finalize-Continues :
      (n : BlockNumber) (c : Chain L) (r : Registry)
      → Fits h w (block_end n) c
      → Represents c.fragments r
      → Continues r (on_finalize w.owner_keys n c.fragments)
  unfolding on_finalize Fits
  on_finalize-Continues n c r f v =
      expire_items-Continues w.owner_keys (items c.fragments.expirations n)
        (record c.fragments { expirations = remove c.fragments.expirations n }) r
        (record {
          covered = λ class id a e. f class id a (
              count-contains (items₂ c.fragments.owners class a) id
                (ground (arith, v.held class id a, e, ==_refl a)));
        })
        (record { held = v.held; present = v.present })

  apply-Continues :
      (x : Action) (c : Chain L) (r : Registry)
      → InRange x c
      → Fits h w x c
      → IsSound c.fragments
      → Represents c.fragments r
      → Continues r (apply h w x c).fragments
  unfolding apply
  apply-Continues (call sys o x) c r b f s v = dispatch-Continues sys o x c r b f s v
  apply-Continues (block_end n) c r b f s v = on_finalize-Continues n c r f v

  -- Whatever calls are made and blocks end: if the storage represents a register, in which each
  -- instance has one holder, then so does the storage afterwards, for a register that the first one
  -- reaches by issuing new instances, handing instances over from their holder, and retiring them.
  -- The numbers of instances and the lists of holders have to be sound before, no count of editions
  -- or of copies passes 2^64, and the end of a block enumerates all holders.
  pub run-Continues :
      (xs : List Action) (c : Chain L) (r : Registry)
      → AllFit h w xs c
      → IsSound c.fragments
      → Represents c.fragments r
      → Continues r (run h w xs c).fragments
  unfolding run AllFit
  run-Continues [] c r f s v = continue r c.fragments v
  run-Continues (x ∷ xs) c r (b, f, fs) s v =
      let first = apply-Continues x c r b f s v in
      let rest =
        run-Continues xs (apply h w x c) first.registry fs (apply-IsSound h w x c b f s)
          first.represents in
      record {
        registry = rest.registry;
        steps = Steps-trans first.steps rest.steps;
        represents = rest.represents;
      }
