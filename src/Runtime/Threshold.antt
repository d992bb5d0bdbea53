-- ===== src/Runtime/Threshold.antt =====
-- What the runtime's threshold of one vote makes of an update of locks.
use clamor.Exec.{none_origin, Outcome, ok, bind-ok}
use clamor.Runtime.Config.{configured}
use clamor.Accounts.Types.{EthLockUpdate, Error, State}
use clamor.Accounts.Voting.{lock_hash, count_vote, apply_update, internal_lock_update}
use clamor.Accounts.Votes.{
  Verified, internal_lock_update-Verified, settle-total, Settled, closing_vote-Settled,
  internal_lock_update-closed,
}
use clamor.Accounts.Links.{IsLinked}
use clamor.Base.{◌≡◌, refl, ap, ◌∙◌, ◌≢◌, true, arith}
use clamor.Host.{Host, System}

apply_update-ok :
    (h : Host) (sys : System) (d : EthLockUpdate) (s : State)
    → IsLinked s
    → (apply_update h sys d true s).0 ≡ ok tt
unfolding apply_update
apply_update-ok h sys d s v = ground (arith, settle-total d s v)

-- With the runtime's threshold of one vote, an update that passes the checks in a state whose links
-- agree takes effect at its first submission, and each later one of the same lock fails and changes
-- nothing.
pub internal_lock_update-configured :
    (h : Host) (sys again : System) (d : EthLockUpdate) (s : State)
    → IsLinked s
    → Verified (configured h) d s
    → let (r, t) = internal_lock_update (configured h) sys none_origin d s in
      (r ≡ ok tt)
      × Settled (configured h) sys d t
      × ((internal_lock_update (configured h) again none_origin d t).0 ≢ ok tt)
      × ((internal_lock_update (configured h) again none_origin d t).1 ≡ t)
unfolding configured count_vote
internal_lock_update-configured h sys again d s v w =
    let c = configured h in
    let at_once : internal_lock_update c sys none_origin d s ≡ apply_update c sys d true s =
      internal_lock_update-Verified c sys d s w
      ∙ bind-ok (count_vote c (lock_hash c d)) (apply_update c sys d) s true refl in
    let settled = closing_vote-Settled c sys d s v w refl in
    let (refused, same) =
      internal_lock_update-closed c again none_origin d
        (internal_lock_update c sys none_origin d s).1 (ground (arith, settled.closed)) in
    (
      ap (λ (r : Outcome Error Unit × State). r.0) at_once ∙ apply_update-ok c sys d s v,
      settled,
      refused,
      same,
    )
