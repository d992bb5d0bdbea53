-- ===== src/Protos/Inclusion.antt =====
-- pallets/protos/src/lib.rs: `check_staking_req`, which decides whether an account may build on the
-- Proto-Fragments that it refers to.
use clamor.Protos.Types.{
  ProtoOwner, user, external_asset, Error, unauthorized, not_enough_staked, stake_not_found,
  reference_not_found, State, Chain, owner_eq,
}
use clamor.Base.{
  ℕ, Bool, false, Option, none, some, List, [], ◌∷◌, leb, if◌then◌else◌, ◌==◌, nat_eq, bytes_eq,
  pair_eq,
}
use clamor.Exec.{ok, Call, fail}
use clamor.Host.{AccountId, Hash256, Balance, BlockNumber}

abbrev pub is_owned_by : AccountId → ProtoOwner → Bool
is_owned_by who (user owner) = owner == who
is_owned_by who (external_asset asset) = false

-- what the stake of an account on a reference allows at a cost that is not zero
abbrev pub stake_covers : ℕ → Option (Balance × BlockNumber) → Option Error
stake_covers cost none = some stake_not_found
stake_covers cost (some stake) = if leb cost stake.0 then none else some not_enough_staked

abbrev pub cost_covers : Option (Balance × BlockNumber) → Option ℕ → Option Error
cost_covers stake none = some unauthorized
cost_covers stake (some cost) = if cost == 0 then none else stake_covers cost stake

-- One round of the loop: `none` is `continue`.
unfoldable pub check_reference : State → AccountId → Hash256 → Option Error
check_reference s who reference = elim (s.protos reference) [
  | none ↦ some reference_not_found
  | some proto ↦
      if is_owned_by who proto.owner
      then none
      else cost_covers (s.proto_stakes reference who) proto.include_cost
]

unfoldable pub check_staking_req : State → List Hash256 → AccountId → Option Error
check_staking_req s [] who = none
check_staking_req s (reference ∷ rest) who =
    let others = check_staking_req s rest who in
    elim (check_reference s who reference) [ none ↦ others | some e ↦ some e ]

-- `Self::check_staking_req(&references, &who)?`
abbrev pub require : Option Error → Call Chain Error
require none c = (ok tt, c)
require (some e) c = fail e c
