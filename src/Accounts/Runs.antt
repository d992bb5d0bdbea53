-- ===== src/Accounts/Runs.antt =====
-- Sequences of calls of the pallet, in any order, failing or not; and what `unlink` undoes.
use clamor.Accounts.Types.{EthLockUpdate, State}
use clamor.Accounts.Calls.{
  add_key, del_key, eth_address, link_message, link, unlink_account, unlink,
}
use clamor.Accounts.Voting.{internal_lock_update}
use clamor.Accounts.Links.{
  IsLinked, link-IsLinked, unlink-IsLinked, SameLinks-IsLinked, internal_lock_update-IsLinked,
}
use clamor.Base.{ℕ, ◌≡◌, refl, none, some, List, [], ◌∷◌, ◌++◌, arith}
use clamor.Exec.{Origin, root, none_origin, signed, ok}
use clamor.Host.{Bytes, AccountId, H160, Host, System}

pub data Extrinsic : Type 0 where
  link_call : Origin → ℕ → Extrinsic
  unlink_call : Origin → H160 → Extrinsic
  lock_update_call : System → Origin → EthLockUpdate → Extrinsic
  add_key_call del_key_call : Origin → ℕ → Extrinsic

unfoldable pub apply : Host → Extrinsic → State → State
apply h (link_call o signature) s = (link h o signature s).1
apply h (unlink_call o e) s = (unlink o e s).1
apply h (lock_update_call sys o d) s = (internal_lock_update h sys o d s).1
apply h (add_key_call o k) s = (add_key o k s).1
apply h (del_key_call o k) s = (del_key o k s).1

pub run : Host → List Extrinsic → State → State
run h [] s = s
run h (x ∷ xs) s = run h xs (apply h x s)

abbrev pub genesis : State
genesis = record {
  eth_locked_frag = λ e. none;
  evm_links = λ a. none;
  evm_links_reverse = λ e. none;
  frag_usage = λ a. none;
  evm_link_voting = λ k. none;
  evm_link_voting_closed = λ k. none;
  pending_unlinks = [];
  frag_keys = [];
  external_id2account = λ i. none;
  events = [];
}

add_key-IsLinked : (o : Origin) (k : ℕ) (s : State) → IsLinked s → IsLinked (add_key o k s).1
unfolding add_key
add_key-IsLinked root k s v = SameLinks-IsLinked s _ (refl, refl, refl) v
add_key-IsLinked none_origin k s v = v
add_key-IsLinked (signed a) k s v = v

del_key-IsLinked : (o : Origin) (k : ℕ) (s : State) → IsLinked s → IsLinked (del_key o k s).1
unfolding del_key
del_key-IsLinked root k s v = SameLinks-IsLinked s _ (refl, refl, refl) v
del_key-IsLinked none_origin k s v = v
del_key-IsLinked (signed a) k s v = v

pub apply-IsLinked : (h : Host) (x : Extrinsic) (s : State) → IsLinked s → IsLinked (apply h x s)
unfolding apply
apply-IsLinked h (link_call o signature) s v = link-IsLinked h o signature s v
apply-IsLinked h (unlink_call o e) s v = unlink-IsLinked o e s v
apply-IsLinked h (lock_update_call sys o d) s v = internal_lock_update-IsLinked h sys o d s v
apply-IsLinked h (add_key_call o k) s v = add_key-IsLinked o k s v
apply-IsLinked h (del_key_call o k) s v = del_key-IsLinked o k s v

run_from-IsLinked :
    (h : Host) (xs : List Extrinsic) (s : State) → IsLinked s → IsLinked (run h xs s)
unfolding run
run_from-IsLinked h [] s v = v
run_from-IsLinked h (x ∷ xs) s v = run_from-IsLinked h xs (apply h x s) (apply-IsLinked h x s v)

pub genesis-IsLinked : IsLinked genesis
genesis-IsLinked = record { forward = λ a e p. cc; backward = λ a e p. cc; used = λ a p. cc }

-- After any calls from the empty storage, whether they fail or not, the two maps of links are
-- inverse to one another, and every account with a usage counter is linked.
pub run-IsLinked : (h : Host) (xs : List Extrinsic) → IsLinked (run h xs genesis)
run-IsLinked h xs = run_from-IsLinked h xs genesis genesis-IsLinked

-- If `link` succeeds, then `unlink` of the recovered address succeeds on what it leaves, puts both
-- maps of links back at every key, takes the usage counter away, and leaves the account in the
-- queue of accounts whose stakes are to be cleared.
pub unlink-link :
    (h : Host) (a : AccountId) (signature : ℕ) (key : Bytes) (s : State)
    → h.ecdsa_recover signature (h.keccak_256 (link_message h a)) ≡ some key
    → (link h (signed a) signature s).0 ≡ ok tt
    → let (r, t) = unlink (signed a) (eth_address h key) (link h (signed a) signature s).1 in
      (r ≡ ok tt)
      × ((b : AccountId) → t.evm_links b ≡ s.evm_links b)
      × ((e : H160) → t.evm_links_reverse e ≡ s.evm_links_reverse e)
      × (t.frag_usage a ≡ none)
      × (t.pending_unlinks ≡ s.pending_unlinks ++ a ∷ [])
unfolding link unlink unlink_account
unlink-link h a signature key s k e =
    (ground arith, λ b. ground arith, λ f. ground arith, ground arith, ground arith)
