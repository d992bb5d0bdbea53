-- ===== src/Accounts/Votes.antt =====
-- How the votes for an update are counted: below the threshold nothing but the count changes, and
-- the vote that reaches it takes effect.
use clamor.Accounts.Types.{EthLockUpdate, State}
use clamor.Accounts.Calls.{deposit_event, unlink_account}
use clamor.Accounts.Voting.{
  lock_hash, verify, count_vote, apply_update, internal_lock_update, slash, slash_linked,
  unlink_linked, settle, record_lock,
}
use clamor.Accounts.Links.{
  IsLinked, SameLinks-IsLinked, count_vote-SameLinks, internal_lock_update-IsLinked,
}
use clamor.Base.{
  ℕ, ◌≡◌, arith, get_or, ◌+◌, ◌<◌, ap, zero, suc, refl, inl, inr, false, none, some, Option-cases,
  subst, true, ◌-◌, is_some, ◌≢◌,
}
use clamor.Exec.{none_origin, ok, ◌>>=◌, StorageMap, Origin, root, signed, bind-ok}
use clamor.Host.{Host, System, Hash256, BlockNumber, u64_mod}

-- The update passes every check in `s`.
abbrev pub Verified : Host → EthLockUpdate → State → Type 0
Verified h d s = (verify h d s).0 ≡ ok tt

-- `n` votes for `d` have come in since `s`, and nothing else has changed.
pub record Pending (h : Host) (d : EthLockUpdate) (s : State) (n : ℕ) (t : State) : Type 0 where
  pub votes : get_or (t.evm_link_voting (lock_hash h d)) 0 ≡ n
  pub locks : t.eth_locked_frag ≡ s.eth_locked_frag
  pub closed : t.evm_link_voting_closed ≡ s.evm_link_voting_closed
  pub links : t.evm_links ≡ s.evm_links
  pub reverse : t.evm_links_reverse ≡ s.evm_links_reverse
  pub usage : t.frag_usage ≡ s.frag_usage
  pub unlinks : t.pending_unlinks ≡ s.pending_unlinks
  pub events : t.events ≡ s.events

-- The checks read only whether the vote is closed.
Verified-closed :
    (h : Host) (d : EthLockUpdate) (s t : State)
    → t.evm_link_voting_closed ≡ s.evm_link_voting_closed
    → Verified h d s
    → Verified h d t
unfolding verify
Verified-closed h d s t e v =
    ground (arith, ap (λ (m : StorageMap Hash256 BlockNumber). m (lock_hash h d)) e)

pub internal_lock_update-Verified :
    (h : Host) (sys : System) (d : EthLockUpdate) (s : State)
    → Verified h d s
    → internal_lock_update h sys none_origin d s
      ≡ (count_vote h (lock_hash h d) >>= apply_update h sys d) s
unfolding internal_lock_update verify
internal_lock_update-Verified h sys d s v = ground arith

-- One vote that does not reach the threshold is counted, and that is all.
vote-Pending :
    (h : Host) (sys : System) (d : EthLockUpdate) (s t : State) (n : ℕ)
    → Verified h d s
    → n + 1 < h.threshold
    → h.threshold < u64_mod
    → Pending h d s n t
    → Pending h d s (n + 1) (internal_lock_update h sys none_origin d t).1
unfolding count_vote apply_update
vote-Pending h sys d s t n v below fits p =
    rw (internal_lock_update-Verified h sys d t (Verified-closed h d s t p.closed v)) (record {
      votes = ground (arith, p.votes);
      locks = ground (arith, p.locks);
      closed = ground (arith, p.closed);
      links = ground (arith, p.links);
      reverse = ground (arith, p.reverse);
      usage = ground (arith, p.usage);
      unlinks = ground (arith, p.unlinks);
      events = ground (arith, p.events);
    })

-- the state after the same update was submitted `n` times
unfoldable pub submissions : Host → System → EthLockUpdate → ℕ → State → State
submissions h sys d zero s = s
submissions h sys d (suc n) s =
    (internal_lock_update h sys none_origin d (submissions h sys d n s)).1

-- Fewer submissions than the threshold change nothing but the count of votes.
pub submissions-Pending :
    (h : Host) (sys : System) (d : EthLockUpdate) (s : State) (n : ℕ)
    → Verified h d s
    → s.evm_link_voting (lock_hash h d) ≡ none
    → n < h.threshold
    → h.threshold < u64_mod
    → Pending h d s n (submissions h sys d n s)
unfolding submissions
submissions-Pending h sys d s zero v fresh below fits = record {
  votes = rw fresh;
  locks = refl;
  closed = refl;
  links = refl;
  reverse = refl;
  usage = refl;
  unlinks = refl;
  events = refl;
}
submissions-Pending h sys d s (suc n) v fresh below fits =
    let step : Pending h d s (n + 1) (submissions h sys d (suc n) s) =
      vote-Pending h sys d s (submissions h sys d n s) n v (omega arith) fits
        (submissions-Pending h sys d s n v fresh (omega arith) fits) in
    subst (λ k. Pending h d s k (submissions h sys d (suc n) s)) (omega arith) step

-- In a state whose links agree, an update that has its votes cannot fail.
pub settle-total : (d : EthLockUpdate) (s : State) → IsLinked s → (settle d s).0 ≡ ok tt
unfolding settle slash_linked slash unlink_linked unlink_account deposit_event
settle-total d s v = elim (Option-cases (s.evm_links_reverse d.sender)) [
  | inl e ↦ ground arith
  | inr (a, e) ↦ ground (arith, v.backward a d.sender e)
]

-- what an update that has its votes leaves behind
pub record Settled (h : Host) (sys : System) (d : EthLockUpdate) (t : State) : Type 0 where
  pub lock :
      t.eth_locked_frag d.sender
      ≡ some (record { amount = d.amount; block_number = sys.block_number })
  pub closed : t.evm_link_voting_closed (lock_hash h d) ≡ some sys.block_number
  pub unlinked : d.lock ≡ false → t.evm_links_reverse d.sender ≡ none

settle-unlinked :
    (d : EthLockUpdate) (s : State)
    → IsLinked s
    → d.lock ≡ false
    → (settle d s).1.evm_links_reverse d.sender ≡ none
unfolding settle slash_linked unlink_linked unlink_account deposit_event
settle-unlinked d s v e = elim (Option-cases (s.evm_links_reverse d.sender)) [
  | inl p ↦ ground arith
  | inr (a, p) ↦ ground (arith, v.backward a d.sender p)
]

pub apply_update-Settled :
    (h : Host) (sys : System) (d : EthLockUpdate) (s : State)
    → IsLinked s
    → Settled h sys d (apply_update h sys d true s).1
unfolding apply_update record_lock
apply_update-Settled h sys d s v = record {
  lock = ground (arith, settle-total d s v);
  closed = ground (arith, settle-total d s v);
  unlinked = λ e. ground (arith, settle-total d s v, settle-unlinked d s v e);
}

-- the vote that reaches the threshold is passed on
last-vote :
    (h : Host) (k : Hash256) (s : State) (n : ℕ)
    → get_or (s.evm_link_voting k) 0 ≡ n
    → 0 < n
    → n + 1 ≡ h.threshold
    → h.threshold < u64_mod
    → (count_vote h k s).0 ≡ ok true
unfolding count_vote
last-vote h k s n e pos top fits = ground arith

pub closing_vote-Settled :
    (h : Host) (sys : System) (d : EthLockUpdate) (t : State)
    → IsLinked t
    → Verified h d t
    → (count_vote h (lock_hash h d) t).0 ≡ ok true
    → Settled h sys d (internal_lock_update h sys none_origin d t).1
closing_vote-Settled h sys d t v w q =
    rw
      (
        internal_lock_update-Verified h sys d t w,
        bind-ok (count_vote h (lock_hash h d)) (apply_update h sys d) t true q,
      )
      (apply_update-Settled h sys d (count_vote h (lock_hash h d) t).1
        (SameLinks-IsLinked t _ (count_vote-SameLinks h (lock_hash h d) t) v))

submissions-IsLinked :
    (h : Host) (sys : System) (d : EthLockUpdate) (n : ℕ) (s : State)
    → IsLinked s
    → IsLinked (submissions h sys d n s)
unfolding submissions
submissions-IsLinked h sys d zero s v = v
submissions-IsLinked h sys d (suc n) s v =
    internal_lock_update-IsLinked h sys none_origin d (submissions h sys d n s)
      (submissions-IsLinked h sys d n s v)

submissions-Settled-suc :
    (h : Host) (sys : System) (d : EthLockUpdate) (s : State) (n : ℕ)
    → IsLinked s
    → Verified h d s
    → s.evm_link_voting (lock_hash h d) ≡ none
    → 0 < n
    → n + 1 ≡ h.threshold
    → h.threshold < u64_mod
    → Settled h sys d (submissions h sys d (suc n) s)
unfolding submissions
submissions-Settled-suc h sys d s n v w fresh pos top fits =
    let p = submissions-Pending h sys d s n w fresh (omega arith) fits in
    closing_vote-Settled h sys d (submissions h sys d n s) (submissions-IsLinked h sys d n s v)
      (Verified-closed h d s (submissions h sys d n s) p.closed w)
      (last-vote h (lock_hash h d) (submissions h sys d n s) n p.votes pos top fits)

-- With a threshold of at least two votes, an update that passes the checks and that nobody has
-- voted for takes effect at the vote that reaches the threshold: the lock of its sender is
-- recorded, the vote is closed, and after an unlock the sender is linked to no account.
pub submissions-Settled :
    (h : Host) (sys : System) (d : EthLockUpdate) (s : State)
    → IsLinked s
    → Verified h d s
    → s.evm_link_voting (lock_hash h d) ≡ none
    → 1 < h.threshold
    → h.threshold < u64_mod
    → Settled h sys d (submissions h sys d h.threshold s)
submissions-Settled h sys d s v w fresh many fits =
    let e : suc (h.threshold - 1) ≡ h.threshold = omega arith in
    subst (λ n. Settled h sys d (submissions h sys d n s)) e
      (submissions-Settled-suc h sys d s (h.threshold - 1) v w fresh (omega arith) (omega arith)
        fits)

-- An update whose vote is closed is refused and changes nothing.
pub internal_lock_update-closed :
    (h : Host) (sys : System) (o : Origin) (d : EthLockUpdate) (s : State)
    → is_some (s.evm_link_voting_closed (lock_hash h d)) ≡ true
    → ((internal_lock_update h sys o d s).0 ≢ ok tt) × ((internal_lock_update h sys o d s).1 ≡ s)
unfolding internal_lock_update verify
internal_lock_update-closed h sys root d s e = ground arith
internal_lock_update-closed h sys (signed a) d s e = ground arith
internal_lock_update-closed h sys none_origin d s e = ground arith
