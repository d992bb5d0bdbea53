-- ===== src/Accounts/SyncTests.antt =====
-- The theorems on the synchronisation with contracts at concrete inputs.
use clamor.Exec.{ok}
use clamor.Json.{member, as_array, Json, string, object, array, end, field, no_items, item}
use clamor.Http.{finished, at_end, chunk, Offchain}
use clamor.Accounts.Types.{external_id_eq}
use clamor.Accounts.Sync.{bytes_token, uint_token, Geth, Syncing, sync_partner_contract}
use clamor.Accounts.SyncRuns.{Synced, sync_partner_contract-Synced}
use clamor.Base.{
  ◌≡◌, ◌≢◌, ◌⊎◌, Bool, true, none, some, [], ◌∷◌, ◌++◌, if◌then◌else◌, is_some, ◌==◌, nat_eq,
  bytes_eq, pair_eq,
}
use clamor.Host.{ascii, be_bytes}

-- the log of a lock of 10 in block 9
abbrev log : Json
log = object (
    field (ascii "blockNumber") (string (ascii "0x9")) (
      field (ascii "topics")
        (array (
          item (string (ascii "0x83a932dce34e6748d366fededbe6d22c5c1272c439426f8620148e8215160b3f"))
            (item (string (ascii "0x" ++ be_bytes 32 77)) no_items)))
        (field (ascii "data") (string (ascii "0x00")) end)))

-- the answer to the request for logs, or to that for the newest block, which is 16
abbrev answer : Bool → Json
answer about_logs = object (
    field (ascii "result") (if about_logs then array (item log no_items) else string (ascii "0x10"))
      end)

-- a host that sends back what was posted, in one part
abbrev host : Offchain
host = record {
  http_request_start = λ url. some 0;
  http_request_add_header = λ request name value. true;
  http_request_write_body = λ request body. true;
  http_response_wait = λ request body. finished 200;
  http_response_read_body = λ request body. chunk body at_end;
}

abbrev geth : Geth
geth = record {
  offchain = host;
  to_string = λ request.
      some (if is_some (as_array (member (ascii "params") request)) then 1 ∷ [] else 2 ∷ []);
  from_str = λ text. some (answer (text == 1 ∷ []));
  hex_decode = λ text. some text;
  abi_decode = λ bytes. some (bytes_token (7 ∷ []) ∷ uint_token 10 ∷ []);
  ecdsa_signature = λ bytes. some 5;
  any_account = some 3;
  is_accepted = λ update. true;
  eth_confirmations = 4;
}

abbrev fresh : Syncing
fresh = record { last_block = none; posted = []; sent = [] }

abbrev synced : Syncing
synced = (sync_partner_contract geth (ascii "0xBADF00D") (ascii "geth") fresh).1

sync_partner_contract-Synced_example :
    let (o, t) = sync_partner_contract geth (ascii "0xBADF00D") (ascii "geth") fresh in
    ((o ≡ ok tt) × Synced geth (ascii "0xBADF00D") (ascii "geth") fresh t)
    ⊎ ((o ≢ ok tt) × (t.last_block ≡ fresh.last_block))
sync_partner_contract-Synced_example =
    sync_partner_contract-Synced geth (ascii "0xBADF00D") (ascii "geth") fresh
