-- ===== src/Accounts/Links.antt =====
-- The two maps of links are inverse to one another, and only a linked account has a usage counter.
use clamor.Base.{ℕ, ◌≡◌, true, some, arith, is_some, refl, Bool, false, Option, none}
use clamor.Exec.{Origin, root, none_origin, signed, ◌>>=◌, modify, bind-keeps}
use clamor.Host.{AccountId, H160, Host, Hash256, Balance, System}
use clamor.Accounts.Types.{State, EthLockUpdate, Event, locked, unlocked}
use clamor.Accounts.Calls.{link, unlink_account, unlink, deposit_event}
use clamor.Accounts.Voting.{
  verify, count_vote, slash, settle, lock_hash, slash_linked, unlink_linked, record_lock,
  apply_update, internal_lock_update,
}

pub record IsLinked (s : State) : Type 0 where
  pub forward : (a : AccountId) (e : H160) → s.evm_links a ≡ some e → s.evm_links_reverse e ≡ some a
  pub backward :
      (a : AccountId) (e : H160) → s.evm_links_reverse e ≡ some a → s.evm_links a ≡ some e
  pub used : (a : AccountId) → is_some (s.frag_usage a) ≡ true → is_some (s.evm_links a) ≡ true

pub link-IsLinked :
    (h : Host) (o : Origin) (signature : ℕ) (s : State)
    → IsLinked s
    → IsLinked (link h o signature s).1
unfolding link
link-IsLinked h o signature s v = record {
  forward = λ a e p. ground (arith, v.forward a e);
  backward = λ a e p. ground (arith, v.backward a e);
  used = λ a p. ground (arith, v.used a);
}

pub unlink_account-IsLinked :
    (a : AccountId) (e : H160) (s : State) → IsLinked s → IsLinked (unlink_account a e s).1
unfolding unlink_account
unlink_account-IsLinked a e s v = record {
  forward = λ b f p. ground (arith, v.forward b f, v.forward a e);
  backward = λ b f p. ground (arith, v.backward b f);
  used = λ b p. ground (arith, v.used b);
}

pub unlink-IsLinked : (o : Origin) (e : H160) (s : State) → IsLinked s → IsLinked (unlink o e s).1
unfolding unlink
unlink-IsLinked root e s v = v
unlink-IsLinked none_origin e s v = v
unlink-IsLinked (signed a) e s v = unlink_account-IsLinked a e s v

-- The checks of an update write nothing.
pub verify-state : (h : Host) (d : EthLockUpdate) (s : State) → (verify h d s).1 ≡ s
unfolding verify
verify-state h d s = ground arith

-- `t` has the links and the usage counters of `s`.
abbrev pub SameLinks : State → State → Type 0
SameLinks s t =
    (t.evm_links ≡ s.evm_links)
    × (t.evm_links_reverse ≡ s.evm_links_reverse)
    × (t.frag_usage ≡ s.frag_usage)

pub SameLinks-IsLinked : (s t : State) → SameLinks s t → IsLinked s → IsLinked t
SameLinks-IsLinked s t (p, q, r) v = record {
  forward = λ a e x. rw q (v.forward a e (rw p at x));
  backward = λ a e x. rw p (v.backward a e (rw q at x));
  used = λ a x. rw p (v.used a (rw r at x));
}

pub count_vote-SameLinks : (h : Host) (k : Hash256) (s : State) → SameLinks s (count_vote h k s).1
unfolding count_vote
count_vote-SameLinks h k s = ground arith

slash-IsLinked : (a : AccountId) (n : Balance) (s : State) → IsLinked s → IsLinked (slash a n s).1
unfolding slash
slash-IsLinked a n s v = record {
  forward = λ b e p. ground (arith, v.forward b e);
  backward = λ b e p. ground (arith, v.backward b e);
  used = λ b p. ground (arith, v.used b);
}

deposit_event-IsLinked : (e : Event) (s : State) → IsLinked s → IsLinked (deposit_event e s).1
unfolding deposit_event
deposit_event-IsLinked e s v = SameLinks-IsLinked s _ (refl, refl, refl) v

slash_linked-IsLinked :
    (o : Option AccountId) (n : Balance) (s : State) → IsLinked s → IsLinked (slash_linked o n s).1
unfolding slash_linked
slash_linked-IsLinked none n s v = v
slash_linked-IsLinked (some a) n s v = slash-IsLinked a n s v

unlink_linked-IsLinked :
    (o : Option AccountId) (e : H160) (s : State) → IsLinked s → IsLinked (unlink_linked o e s).1
unfolding unlink_linked
unlink_linked-IsLinked none e s v = v
unlink_linked-IsLinked (some a) e s v = unlink_account-IsLinked a e s v

settle_as-IsLinked :
    (lock : Bool) (d : EthLockUpdate) (s : State)
    → lock ≡ d.lock
    → IsLinked s
    → IsLinked (settle d s).1
unfolding settle
settle_as-IsLinked true d s p v = rw (← p) (
    bind-keeps IsLinked (slash_linked (s.evm_links_reverse d.sender) d.amount)
      (λ _. deposit_event (locked d.sender d.amount)) s
      (slash_linked-IsLinked (s.evm_links_reverse d.sender) d.amount s v)
      (λ _. deposit_event-IsLinked (locked d.sender d.amount)))
settle_as-IsLinked false d s p v = rw (← p) (
    bind-keeps IsLinked (unlink_linked (s.evm_links_reverse d.sender) d.sender)
      (λ _. deposit_event (unlocked d.sender d.amount)) s
      (unlink_linked-IsLinked (s.evm_links_reverse d.sender) d.sender s v)
      (λ _. deposit_event-IsLinked (unlocked d.sender d.amount)))

apply_update-IsLinked :
    (h : Host) (sys : System) (d : EthLockUpdate) (passed : Bool) (s : State)
    → IsLinked s
    → IsLinked (apply_update h sys d passed s).1
unfolding apply_update record_lock
apply_update-IsLinked h sys d false s v = v
apply_update-IsLinked h sys d true s v =
    bind-keeps IsLinked (settle d) (λ _. modify (record_lock h sys d)) s
      (settle_as-IsLinked d.lock d s refl v) (λ _ u w. SameLinks-IsLinked u _ (refl, refl, refl) w)

pub internal_lock_update-IsLinked :
    (h : Host) (sys : System) (o : Origin) (d : EthLockUpdate) (s : State)
    → IsLinked s
    → IsLinked (internal_lock_update h sys o d s).1
unfolding internal_lock_update
internal_lock_update-IsLinked h sys root d s v = v
internal_lock_update-IsLinked h sys (signed a) d s v = v
internal_lock_update-IsLinked h sys none_origin d s v =
    bind-keeps IsLinked (verify h d) (λ _. count_vote h (lock_hash h d) >>= apply_update h sys d) s
      (rw verify-state v)
      (λ _ t w.
        bind-keeps IsLinked (count_vote h (lock_hash h d)) (apply_update h sys d) t
          (SameLinks-IsLinked t _ (count_vote-SameLinks h (lock_hash h d) t) w)
          (apply_update-IsLinked h sys d))
