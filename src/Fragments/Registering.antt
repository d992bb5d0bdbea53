-- ===== src/Fragments/Registering.antt =====
-- Each write of the pallet is a few steps of the register of instances.
use clamor.Exec.{put₂, items₂}
use clamor.Fragments.Types.{Edition, InstanceId, FragmentPerms, FragmentInstance, State}
use clamor.Fragments.Minting.{mint_one, mint_loop}
use clamor.Fragments.Giving.{give_copy, give_away}
use clamor.Fragments.Registry.{
  Registry, issue, hand_over, done, step, Represents, Continues, continue, mint_one-Represents,
}
use clamor.Base.{
  ℕ, zero, suc, ◌+◌, ◌<◌, ◌≡◌, true, none, some, [], ◌∷◌, arith, ==_iff, contains, count-append,
  nat_eq, bytes_eq, pair_eq, get_or, without, count-without, contains-count,
}
use clamor.Host.{AccountId, Hash128, u64_mod, add_u64}

pub mint_loop-Continues :
    (to : AccountId) (class : Hash128) (i : FragmentInstance) (n : ℕ) (first : Edition) (s : State)
    (r : Registry)
    → first + n < u64_mod
    → ((e : Edition) → first < e → r class (e, 1) ≡ none)
    → Represents s r
    → Continues r (mint_loop to class i n first s)
unfolding mint_loop
mint_loop-Continues to class i zero first s r b fresh v = continue r s v
mint_loop-Continues to class i (suc n) first s r b fresh v =
    let id = add_u64 first 1 in
    let e : id ≡ first + 1 = omega arith in
    let new : r class (id, 1) ≡ none = fresh id (omega arith) in
    let rest =
      mint_loop-Continues to class i n (first + 1) (mint_one to class i id s)
        (put₂ r class (id, 1) (some to)) (omega arith)
        (λ f later. ground (arith, e, fresh f (omega arith)))
        (mint_one-Represents to class i id s r new v) in
    record {
      registry = rest.registry;
      steps = step (issue class (id, 1) to new) rest.steps;
      represents = rest.represents;
    }

pub give_copy-Continues :
    (to : AccountId) (class : Hash128) (e copy : Edition) (i : FragmentInstance) (s : State)
    (r : Registry)
    → r class (e, copy) ≡ none
    → Represents s r
    → Continues r (give_copy to class e copy i s)
unfolding give_copy
give_copy-Continues to class e copy i s r fresh v = record {
  registry = put₂ r class (e, copy) (some to);
  steps = step (issue class (e, copy) to fresh) done;
  represents = record {
    held = λ k j a. ground (
      arith,
      fresh,
      v.held k j a,
      v.held class j to,
      count-append j (items₂ s.owners class to) ((e, copy) ∷ []),
      ==_iff class k,
      ==_iff to a,
      ==_iff (e, copy) j,
    );
    present = λ k j. ground (arith, v.present k j);
  };
}

-- an account that has the instance in its list is its holder
pub holder :
    (s : State) (r : Registry) (class : Hash128) (id : InstanceId) (a : AccountId)
    → Represents s r
    → contains (items₂ s.owners class a) id ≡ true
    → r class id ≡ some a
holder s r class id a v e = ground (
  arith,
  v.held class id a,
  contains-count (items₂ s.owners class a) id e,
  ==_iff (get_or (r class id) 0) a,
)

pub give_away-Continues :
    (who to : AccountId) (class : Hash128) (id : InstanceId) (p : FragmentPerms) (s : State)
    (r : Registry)
    → r class id ≡ some who
    → Represents s r
    → Continues r (give_away who to class id p s)
unfolding give_away
give_away-Continues who to class id p s r h v = record {
  registry = put₂ r class id (some to);
  steps = step (hand_over class id who to h) done;
  represents = record {
    held = λ k j a. ground (
      arith,
      h,
      v.held k j a,
      v.held class j to,
      v.held class j who,
      count-without id j (items₂ s.owners class who),
      count-append j (items₂ s.owners class to) (id ∷ []),
      count-append j (without id (items₂ s.owners class who)) (id ∷ []),
      ==_iff class k,
      ==_iff to a,
      ==_iff who a,
      ==_iff who to,
      ==_iff id j,
    );
    present =
        λ k j. ground (arith, h, v.present k j, v.present class id, ==_iff class k, ==_iff id j);
  };
}
