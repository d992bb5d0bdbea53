-- ===== src/Protos/InclusionLaws.antt =====
-- `check_staking_req` against the rule that it enforces.
use clamor.Protos.Types.{ProtoOwner, user, external_asset, Proto, Error, State, owner_eq}
use clamor.Protos.Inclusion.{is_owned_by, cost_covers, check_reference, check_staking_req}
use clamor.Base.{
  ℕ, zero, suc, ◌≤◌, ◌≡◌, refl, ◌↔◌, inl, inr, Option, none, some, List, [], ◌∷◌, ◌++◌, arith,
  if◌then◌else◌, Bool-cases, Option-cases, ◌==◌, ==_iff, nat_eq, bytes_eq, pair_eq,
}
use clamor.Host.{AccountId, Hash256, Balance, BlockNumber}

-- The account may build on the Proto-Fragment: it is its own, or it is free, or the account's stake
-- on it covers its cost.
pub data MayInclude (s : State) (who : AccountId) (k : Hash256) : Type 0 where
  own : (p : Proto) → s.protos k ≡ some p → p.owner ≡ user who → MayInclude s who k
  free : (p : Proto) → s.protos k ≡ some p → p.include_cost ≡ some 0 → MayInclude s who k
  staked :
      (p : Proto) (cost amount block : ℕ)
      → s.protos k ≡ some p
      → p.include_cost ≡ some cost
      → s.proto_stakes k who ≡ some (amount, block)
      → cost ≤ amount
      → MayInclude s who k

MayInclude-check :
    (s : State) (who : AccountId) (k : Hash256)
    → MayInclude s who k
    → check_reference s who k ≡ none
unfolding check_reference
MayInclude-check s who k (own p e o) = ground arith
MayInclude-check s who k (free p e o) = ground arith
MayInclude-check s who k (staked p cost amount block e o t le) = ground arith

by_cost :
    (s : State) (who : AccountId) (k : Hash256) (p : Proto)
    → s.protos k ≡ some p
    → (cost : Option ℕ) → p.include_cost ≡ cost
    → (stake : Option (Balance × BlockNumber)) → s.proto_stakes k who ≡ stake
    → cost_covers stake cost ≡ none
    → MayInclude s who k
by_cost s who k p e none c stake t h = cc
by_cost s who k p e (some zero) c stake t h = free p e c
by_cost s who k p e (some (suc n)) c none t h = ground arith
by_cost s who k p e (some (suc n)) c (some (amount, block)) t h =
    staked p (suc n) amount block e c t (ground arith)

by_owner :
    (s : State) (who : AccountId) (k : Hash256) (p : Proto)
    → s.protos k ≡ some p
    → (o : ProtoOwner) → p.owner ≡ o
    → (if is_owned_by who o then none else cost_covers (s.proto_stakes k who) p.include_cost) ≡ none
    → MayInclude s who k
by_owner s who k p e (external_asset x) c h =
    by_cost s who k p e p.include_cost refl (s.proto_stakes k who) refl h
by_owner s who k p e (user a) c h = elim (Bool-cases (a == who)) [
  | inl same ↦ own p e (ground (arith, ==_iff a who))
  | inr other ↦ by_cost s who k p e p.include_cost refl (s.proto_stakes k who) refl (ground arith)
]

check-MayInclude :
    (s : State) (who : AccountId) (k : Hash256)
    → check_reference s who k ≡ none
    → MayInclude s who k
unfolding check_reference
check-MayInclude s who k h = elim (Option-cases (s.protos k)) [
  | inl e ↦ ground arith
  | inr (p, e) ↦ by_owner s who k p e p.owner refl (ground arith)
]

abbrev pub AllMayInclude : State → AccountId → List Hash256 → Type 0
AllMayInclude s who [] = Unit
AllMayInclude s who (k ∷ ks) = MayInclude s who k × AllMayInclude s who ks

-- The check passes exactly if the account may build on every reference.
pub check_staking_req_iff :
    (s : State) (ks : List Hash256) (who : AccountId)
    → (check_staking_req s ks who ≡ none) ↔ AllMayInclude s who ks
unfolding check_staking_req
check_staking_req_iff s [] who = (λ h. tt, λ h. refl)
check_staking_req_iff s (k ∷ ks) who = (
  λ h. (check-MayInclude s who k (ground arith), (check_staking_req_iff s ks who).0 (ground arith)),
  λ (m, ms). ground (arith, MayInclude-check s who k m, (check_staking_req_iff s ks who).1 ms),
)

-- If the account may build on the references before one that it may not build on, the check fails
-- with the error of that one, whatever follows.
pub check_staking_req-first :
    (s : State) (ks rest : List Hash256) (k : Hash256) (who : AccountId) (e : Error)
    → AllMayInclude s who ks
    → check_reference s who k ≡ some e
    → check_staking_req s (ks ++ k ∷ rest) who ≡ some e
unfolding check_staking_req
check_staking_req-first s [] rest k who e m h = ground arith
check_staking_req-first s (j ∷ ks) rest k who e (m, ms) h =
    ground (arith, MayInclude-check s who j m, check_staking_req-first s ks rest k who e ms h)
