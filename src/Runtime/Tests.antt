-- ===== src/Runtime/Tests.antt =====
-- The theorems on the whole chain at concrete inputs.
use clamor.Protos.Tests as ProtosTests
use clamor.Detach.Types as Detach
use clamor.Detach.Tests as DetachTests
use clamor.Accounts.Types as Accounts
use clamor.Accounts.Tests as AccountsTests
use clamor.Accounts.Runs as AccountsRuns
use clamor.Accounts.Validation as AccountsPool
use clamor.Detach.Validation as DetachPool
use clamor.Fragments.Tests as FragmentsTests
use clamor.Samples.{sample_host, in_block, sample_currencies, no_detach}
use clamor.Exec.{items, none_origin, signed, ok}
use clamor.Runtime.Calls.{
  link_call, internal_lock_update_call, internal_finalize_detach_call, protos_call, fragments_call,
  detach_call, accounts_call, World, dispatch_accounts, dispatch_detach, dispatch,
}
use clamor.Runtime.Steps.{called, lock_updated, detach_finalized, Reach, here, next}
use clamor.Runtime.Marks.{Finalization, Reach-Finalization}
use clamor.Runtime.Locks.{Submission, Reach-Submission}
use clamor.Runtime.Freezing.{Reach-IsFrozen}
use clamor.Runtime.Owners.{Reach-Preserves, signer, Step-owner}
use clamor.Runtime.Holders.{ended, Step-holder}
use clamor.Runtime.Linking.{Agreement, Reach-Agreement}
use clamor.Runtime.Config.{block_hash_count, configured, transaction_period}
use clamor.Runtime.Period.{transaction_period-bounds}
use clamor.Runtime.Threshold.{internal_lock_update-configured}
use clamor.Fragments.Types.{quantity, Chain}
use clamor.Fragments.Runs.{buy_call}
use clamor.Fragments.Holding.{Holds}
use clamor.Detach.Calls.{internal_finalize_detach}
use clamor.Accounts.Calls.{deposit_event, eth_address, link}
use clamor.Accounts.Voting.{
  lock_hash, verify, count_vote, slash_linked, settle, record_lock, apply_update,
  internal_lock_update,
}
use clamor.Accounts.Votes.{Verified, Settled}
use clamor.Protos.Atomic.{transfer_call}
use clamor.Protos.LeavingTests.{left_chain}
use clamor.Protos.Frozen.{IsFrozen}
use clamor.Protos.Descent.{Become}
use clamor.Protos.Effects.{Controls}
use clamor.Base.{
  ℕ, ◌*◌, ◌^◌, ◌≤◌, ◌<◌, ◌≡◌, refl, ◌≢◌, ◌⊎◌, true, false, ◌&&◌, Option, none, some, [], ◌∷◌, arith,
  if◌then◌else◌, ◌==◌, contains, nat_eq, bytes_eq, pair_eq,
}
use clamor.Host.{AccountId, BlockNumber}

abbrev pub world : World ℕ
world = record {
  host = configured sample_host;
  outside = record {
    currencies = sample_currencies;
    lookup = λ address. some address;
    owner_keys = λ class. [];
  };
  proxies = record {
    has_proxies = λ ledger account. false;
    insert_proxies = λ account delegate amount ledger. ledger;
    reserve = λ account amount ledger. some ledger;
    max_proxies = 4;
    deposit_base = 1;
    deposit_factor = 1;
    encode_external_id = λ id. elim id [ Accounts.discord n ↦ n ∷ [] ];
  };
  lock_checks = record { ed25519_key = λ public. some public; is_signed = λ d signature. true };
  detach_checks = record { ed25519_key = λ public. some public; is_signed = λ d signature. true };
}

-- Proto-Fragment 50 of account 1, and workers with the keys 3 and 0
abbrev pub start : Chain ℕ
start = record FragmentsTests.chain {
  base = record ProtosTests.chain {
    detach = record no_detach { frag_keys = 3 ∷ [] };
    accounts = record AccountsRuns.genesis { frag_keys = 0 ∷ [] };
  };
}

abbrev marked : Chain ℕ
marked =
    dispatch world in_block 0 none_origin
      (detach_call (internal_finalize_detach_call DetachTests.sent_data)) start

marking : Reach world false start marked
unfolding DetachPool.validate_unsigned
marking = next here (
    detach_finalized in_block 0 DetachTests.sent_data 1
      (50, Detach.ethereum_goerli, DetachTests.address, 1) start refl)

Reach-Finalization_example :
    Finalization world start 50
      (record { chain = Detach.ethereum_goerli; owner = DetachTests.address; nonce = 1 })
unfolding dispatch dispatch_detach internal_finalize_detach
Reach-Finalization_example = Reach-Finalization world start marked 50 _ refl marking refl

abbrev locked_chain : Chain ℕ
locked_chain =
    dispatch world in_block 0 none_origin
      (accounts_call (internal_lock_update_call AccountsTests.update)) start

locking : Reach world false start locked_chain
unfolding AccountsPool.validate_unsigned
locking =
    next here (lock_updated in_block 0 AccountsTests.update 1 (AccountsTests.update, 0) start refl)

Reach-Submission_example :
    Submission world start AccountsTests.update.sender (record { amount = 10; block_number = 5 })
unfolding dispatch dispatch_accounts configured internal_lock_update verify count_vote apply_update
    settle record_lock lock_hash eth_address slash_linked deposit_event
Reach-Submission_example =
    Reach-Submission world start locked_chain AccountsTests.update.sender _ refl locking refl

-- Proto-Fragment 50 has left the chain, and its owner tries to transfer it.
abbrev left : Chain ℕ
left = record start { base = left_chain }

moving :
    (c : Chain ℕ)
    → Reach world true c (dispatch world in_block 0 (signed 1) (protos_call (transfer_call 50 2)) c)
moving c = next here (called in_block 0 (signed 1) (protos_call (transfer_call 50 2)) c (λ e. cc))

Reach-IsFrozen_example :
    IsFrozen 50 ProtosTests.costly
      (dispatch world in_block 0 (signed 1) (protos_call (transfer_call 50 2)) left).base
Reach-IsFrozen_example =
    Reach-IsFrozen world true 50 ProtosTests.costly left _
      (record { stored = refl; detached = refl }) (moving left)

Reach-Preserves_example :
    Become 50 ProtosTests.costly
      (dispatch world in_block 0 (signed 1) (protos_call (transfer_call 50 2)) start).base.protos
Reach-Preserves_example =
    Reach-Preserves world true start _ 50 ProtosTests.costly (moving start) refl

Step-owner_example :
    let d = dispatch world in_block 0 (signed 1) (protos_call (transfer_call 50 2)) start in
    (d.base.protos.protos 50 ≡ some ProtosTests.costly)
    ⊎ ((a : AccountId) × (some 1 ≡ some a) × Controls start.base a 50)
unfolding signer
Step-owner_example =
    Step-owner world true start _ 50 ProtosTests.costly
      (called in_block 0 (signed 1) (protos_call (transfer_call 50 2)) start (λ e. cc)) refl

transaction_period-bounds_example :
    (k : ℕ) × (transaction_period block_hash_count ≡ 2 ^ k)
    × (transaction_period block_hash_count < block_hash_count)
    × (block_hash_count ≤ 2 * transaction_period block_hash_count)
transaction_period-bounds_example =
    transaction_period-bounds block_hash_count (omega arith) (omega arith)

update-Verified : Verified (configured sample_host) AccountsTests.update AccountsRuns.genesis
unfolding verify eth_address lock_hash configured
update-Verified = refl

internal_lock_update-configured_example :
    let (r, t) =
      internal_lock_update
        (configured sample_host)
        in_block
        none_origin
        AccountsTests.update
        AccountsRuns.genesis in
    (r ≡ ok tt)
    × Settled (configured sample_host) in_block AccountsTests.update t
    × ((internal_lock_update (configured sample_host) in_block none_origin AccountsTests.update t).0
        ≢ ok tt)
    × ((internal_lock_update (configured sample_host) in_block none_origin AccountsTests.update t).1
        ≡ t)
internal_lock_update-configured_example =
    internal_lock_update-configured sample_host in_block in_block AccountsTests.update
      AccountsRuns.genesis AccountsRuns.genesis-IsLinked update-Verified

-- Account 1 has instance (1, 1) of definition 60, and another account buys.
abbrev stocked : Chain ℕ
stocked = record start {
  fragments = record FragmentsTests.nothing {
    inventory = λ a k. if a == 1 && k == 60 then some ((1, 1) ∷ []) else none;
  };
}

Step-holder_example :
    let d =
      dispatch world in_block 0 (signed 2) (fragments_call (buy_call 60 (quantity 1))) stocked in
    Holds 1 60 (1, 1) d.fragments
    ⊎ (◌≡◌ {A = Option ℕ} (some 2) (some 1))
    ⊎ ((n : BlockNumber) × (none ≡ some n)
        × (contains (items stocked.fragments.expirations n) (60, (1, 1)) ≡ true))
unfolding signer ended
Step-holder_example =
    Step-holder world 1 60 (1, 1) true stocked _
      (called in_block 0 (signed 2) (fragments_call (buy_call 60 (quantity 1))) stocked (λ e. cc))
      refl

abbrev linked_chain : Chain ℕ
linked_chain = dispatch world in_block 0 (signed 1) (accounts_call (link_call 5)) start

Reach-Agreement_example : Agreement world false start 1 (eth_address sample_host (5 ∷ []))
unfolding dispatch dispatch_accounts configured link eth_address
Reach-Agreement_example =
    Reach-Agreement world 1 (eth_address sample_host (5 ∷ [])) false start linked_chain refl
      (next here (called in_block 0 (signed 1) (accounts_call (link_call 5)) start (λ e. cc))) refl
