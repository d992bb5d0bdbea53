-- ===== src/Runtime/Calls.antt =====
-- runtime/src/lib.rs: the calls of the runtime to the pallets of the repository, and where
-- `construct_runtime!` sends them.
use clamor.Accounts.Calls as Accounts
use clamor.Detach.Types as Detached
use clamor.Detach.Calls as Detach
use clamor.Protos.Atomic as Protos
use clamor.Fragments.Runs as Fragments
use clamor.Exec.{Origin, PayloadChecks}
use clamor.Fragments.Types.{Chain}
use clamor.Fragments.Runs.{Outside}
use clamor.Accounts.Sponsor.{Proxies, Sponsoring, sponsor_account}
use clamor.Accounts.Voting.{internal_lock_update}
use clamor.Accounts.Types.{EthLockUpdate, ExternalId}
use clamor.Detach.Types.{DetachInternalData}
use clamor.Detach.Calls.{internal_finalize_detach}
use clamor.Base.{ℕ}
use clamor.Host.{H160, Host, System}

pub data AccountsCall : Type 0 where
  link_call : ℕ → AccountsCall
  unlink_call : H160 → AccountsCall
  sponsor_account_call : ExternalId → AccountsCall
  add_key_call del_key_call : ℕ → AccountsCall
  internal_lock_update_call : EthLockUpdate → AccountsCall

pub data DetachCall : Type 0 where
  add_eth_auth_call del_eth_auth_call add_worker_key_call del_worker_key_call : ℕ → DetachCall
  internal_finalize_detach_call : DetachInternalData → DetachCall

pub data RuntimeCall : Type 0 where
  protos_call : Protos.Extrinsic → RuntimeCall
  fragments_call : Fragments.Extrinsic → RuntimeCall
  detach_call : DetachCall → RuntimeCall
  accounts_call : AccountsCall → RuntimeCall

-- What the pallets take from outside the repository.
pub record World (L : Type 0) : Type 0 where
  pub host : Host
  pub outside : Outside L
  pub proxies : Proxies L
  pub lock_checks : PayloadChecks EthLockUpdate
  pub detach_checks : PayloadChecks DetachInternalData

-- The storage of the pallet `accounts` and the ledger after one of its calls, at the time `now`.
unfoldable pub dispatch_accounts :
    {L : Type 0} → World L → System → ℕ → Origin → AccountsCall → Sponsoring L → Sponsoring L
dispatch_accounts w sys now o (link_call signature) c = record c {
  accounts = (Accounts.link w.host o signature c.accounts).1;
}
dispatch_accounts w sys now o (unlink_call e) c = record c {
  accounts = (Accounts.unlink o e c.accounts).1;
}
dispatch_accounts w sys now o (sponsor_account_call i) c =
    (sponsor_account w.host w.proxies now o i c).1
dispatch_accounts w sys now o (add_key_call k) c = record c {
  accounts = (Accounts.add_key o k c.accounts).1;
}
dispatch_accounts w sys now o (del_key_call k) c = record c {
  accounts = (Accounts.del_key o k c.accounts).1;
}
dispatch_accounts w sys now o (internal_lock_update_call d) c = record c {
  accounts = (internal_lock_update w.host sys o d c.accounts).1;
}

unfoldable pub dispatch_detach : Origin → DetachCall → Detached.State → Detached.State
dispatch_detach o (add_eth_auth_call k) s = (Detach.add_eth_auth o k s).1
dispatch_detach o (del_eth_auth_call k) s = (Detach.del_eth_auth o k s).1
dispatch_detach o (add_worker_key_call k) s = (Detach.add_key o k s).1
dispatch_detach o (del_worker_key_call k) s = (Detach.del_key o k s).1
dispatch_detach o (internal_finalize_detach_call d) s = (internal_finalize_detach o d s).1

-- The storage after a call, whether it fails or not.
unfoldable pub dispatch :
    {L : Type 0} → World L → System → ℕ → Origin → RuntimeCall → Chain L → Chain L
dispatch w sys now o (protos_call x) c = record c {
  base = (Protos.dispatch w.host sys o x c.base).1;
}
dispatch w sys now o (fragments_call x) c = (Fragments.dispatch w.host w.outside sys o x c).1
dispatch w sys now o (detach_call x) c = record c {
  base = record c.base { detach = dispatch_detach o x c.base.detach };
}
dispatch w sys now o (accounts_call x) c =
    let t =
      dispatch_accounts w sys now o x (record { accounts = c.base.accounts; ledger = c.ledger }) in
    record c { base = record c.base { accounts = t.accounts }; ledger = t.ledger }
