-- ===== src/Accounts/Tests.antt =====
-- The theorems on links and votes at concrete inputs.
use clamor.Samples.{sample_host, in_block}
use clamor.Accounts.Types.{EthLockUpdate}
use clamor.Accounts.Calls.{eth_address, link, unlink}
use clamor.Accounts.Voting.{lock_hash, verify}
use clamor.Accounts.Votes.{Verified, submissions, Settled, submissions-Settled}
use clamor.Accounts.Runs.{genesis, unlink-link, genesis-IsLinked}
use clamor.Base.{◌≡◌, refl, true, none, [], ◌∷◌, arith}
use clamor.Exec.{signed, ok}
use clamor.Host.{AccountId, H160}

abbrev pub update : EthLockUpdate
update = record {
  public = 0;
  amount = 10;
  sender = eth_address sample_host (5 ∷ []);
  signature = 5;
  lock = true;
  block_number = 3;
}

update-Verified : Verified sample_host update genesis
unfolding verify eth_address lock_hash
update-Verified = refl

submissions-Settled_example :
    Settled sample_host in_block update (submissions sample_host in_block update 2 genesis)
unfolding lock_hash
submissions-Settled_example =
    submissions-Settled sample_host in_block update genesis genesis-IsLinked update-Verified refl
      (omega arith) (omega arith)

link-succeeds : (link sample_host (signed 1) 5 genesis).0 ≡ ok tt
unfolding link eth_address
link-succeeds = refl

unlink-link_example :
    let (r, t) =
      unlink
        (signed 1)
        (eth_address sample_host (5 ∷ []))
        (link sample_host (signed 1) 5 genesis).1 in
    (r ≡ ok tt)
    × ((b : AccountId) → t.evm_links b ≡ none)
    × ((e : H160) → t.evm_links_reverse e ≡ none)
    × (t.frag_usage 1 ≡ none)
    × (t.pending_unlinks ≡ 1 ∷ [])
unlink-link_example = unlink-link sample_host 1 5 (5 ∷ []) genesis refl link-succeeds
