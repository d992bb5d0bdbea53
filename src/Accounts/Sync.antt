-- ===== src/Accounts/Sync.antt =====
-- pallets/accounts/src/lib.rs: `sync_partner_contracts`, which the off-chain worker runs. The
-- host's functions for HTTP, the crates serde_json, hex and ethabi, the signature type and the
-- account that signs a transaction are arguments.
use clamor.Exec.{
  pallet, ok, err, panic, Exec, Call, ◌>>=◌, ◌>>◌, return, ensure, ok_or, unwrap, modify,
}
use clamor.Json.{
  member, as_str, as_array, nth, is_utf8, Json, number, string, object, array, end, field, Items,
  no_items, item,
}
use clamor.Http.{Offchain, HttpResult, response, http_error, http_panic, http_json_post}
use clamor.Accounts.Types.{EthLockUpdate, external_id_eq}
use clamor.Accounts.Hexadecimal.{skip_two, from_str_radix, format_block}
use clamor.Base.{
  ℕ, zero, suc, ◌+◌, ◌-◌, ◌*◌, Bool, true, false, Option, none, some, List, [], ◌∷◌, ◌++◌,
  if◌then◌else◌, ◌==◌, length, drop, nat_eq, bytes_eq, pair_eq,
}
use clamor.Host.{Bytes, H160, ascii}

-- what ethabi decodes
pub data Token : Type 0 where
  bytes_token : Bytes → Token
  uint_token : ℕ → Token
  other_token : Token

pub record Geth : Type 0 where
  pub offchain : Offchain
  pub to_string : Json → Option Bytes
  pub from_str : Bytes → Option Json
  pub hex_decode : Bytes → Option Bytes
  -- `decode` with the types bytes and uint256
  pub abi_decode : Bytes → Option (List Token)
  pub ecdsa_signature : Bytes → Option ℕ
  pub any_account : Option ℕ
  -- whether the pool takes the transaction
  pub is_accepted : EthLockUpdate → Bool
  -- `EthConfirmations`
  pub eth_confirmations : ℕ

-- the messages of `Err`
pub data SyncError : Type 0 where
  invalid_request no_response invalid_response no_json no_result invalid_block : SyncError
  invalid_last_block no_block_number no_topics no_topic no_data bad_data bad_eth_data : SyncError
  invalid_topic no_sender invalid_sender invalid_data not_signed not_sent : SyncError

-- The entry "frag_sync_last_block" of the local storage, the bodies that were posted, and the
-- updates that were sent.
pub record Syncing : Type 0 where
  pub last_block : Option Bytes
  pub posted : List Bytes
  pub sent : List EthLockUpdate

abbrev lock_event : Bytes
lock_event = ascii "0x83a932dce34e6748d366fededbe6d22c5c1272c439426f8620148e8215160b3f"

abbrev unlock_event : Bytes
unlock_event = ascii "0xf9480f9ead9b82690f56cdb4730f12763ca2f50ce1792a255141b71789dca7fe"

abbrev pub block_request : Json
block_request = object (
    field (ascii "jsonrpc") (string (ascii "2.0")) (
      field (ascii "method") (string (ascii "eth_blockNumber"))
        (field (ascii "id") (number 1) end)))

unfoldable pub logs_request : Bytes → Bytes → Bytes → Json
logs_request contract from_block to_block = object (
    field (ascii "jsonrpc") (string (ascii "2.0")) (
      field (ascii "method") (string (ascii "eth_getLogs")) (
        field (ascii "id") (string (ascii "0")) (
          field (ascii "params")
            (array (
              item
                (object (
                  field (ascii "fromBlock") (string from_block) (
                    field (ascii "toBlock") (string to_block) (
                      field (ascii "address") (string contract) (
                        field (ascii "topics")
                          (array (
                            item
                              (array
                                (item (string lock_event) (item (string unlock_event) no_items)))
                              no_items))
                          end)))))
                no_items))
            end))))

-- every error of a request becomes the same one
abbrev pub answer_of : HttpResult → Exec Syncing SyncError Bytes
answer_of (response reply) s = (ok reply, s)
answer_of (http_error e) s = (err (pallet no_response), s)
answer_of http_panic s = (panic, s)

-- a request and the JSON of its response
unfoldable pub post_json : Geth → Bytes → Json → Exec Syncing SyncError Json
post_json g uri request = do
  body ← ok_or (g.to_string request) invalid_request
  modify (λ s. record s { posted = s.posted ++ body ∷ [] })
  reply ← answer_of (http_json_post g.offchain uri body)
  ensure (is_utf8 reply) invalid_response
  ok_or (g.from_str reply) no_json

abbrev read_topic : Bytes → Option Bool
read_topic topic =
    if topic == lock_event then some true else if topic == unlock_event then some false else none

-- `H160::from_slice(&sender[12..])`; `none` is the panic
abbrev be_nat : ℕ → Bytes → ℕ
be_nat value [] = value
be_nat value (b ∷ bytes) = be_nat (value * 256 + b) bytes

abbrev read_address : Bytes → Option H160
read_address bytes = if length bytes == 32 then some (be_nat 0 (drop 12 bytes)) else none

abbrev into_bytes : Token → Option Bytes
into_bytes (bytes_token bytes) = some bytes
into_bytes (uint_token n) = none
into_bytes other_token = none

abbrev into_uint : Token → Option ℕ
into_uint (bytes_token bytes) = none
into_uint (uint_token n) = some n
into_uint other_token = none

abbrev token_at : ℕ → List Token → Option Token
token_at n [] = none
token_at zero (t ∷ ts) = some t
token_at (suc n) (t ∷ ts) = token_at n ts

-- What the log of an event says, for the account that will sign it. It reads no storage.
unfoldable pub read_log : Geth → Json → Exec (Unit {0}) SyncError (ℕ → EthLockUpdate)
read_log g log = do
  block_text ← ok_or (as_str (member (ascii "blockNumber") log)) no_block_number
  block_digits ← unwrap (skip_two block_text)
  block_number ← ok_or (from_str_radix block_digits) invalid_block
  topics ← ok_or (as_array (member (ascii "topics") log)) no_topics
  first_topic ← unwrap (nth 0 topics)
  topic ← ok_or (as_str first_topic) no_topic
  data_text ← ok_or (as_str (member (ascii "data") log)) no_data
  data_digits ← unwrap (skip_two data_text)
  bytes ← ok_or (g.hex_decode data_digits) bad_data
  tokens ← ok_or (g.abi_decode bytes) bad_eth_data
  is_lock ← ok_or (read_topic topic) invalid_topic
  second_topic ← unwrap (nth 1 topics)
  sender_text ← ok_or (as_str second_topic) no_sender
  sender_digits ← unwrap (skip_two sender_text)
  sender_bytes ← ok_or (g.hex_decode sender_digits) invalid_sender
  sender ← unwrap (read_address sender_bytes)
  first_token ← unwrap (token_at 0 tokens)
  signature_bytes ← ok_or (into_bytes first_token) invalid_data
  signature ← ok_or (g.ecdsa_signature signature_bytes) invalid_data
  second_token ← unwrap (token_at 1 tokens)
  amount ← ok_or (into_uint second_token) invalid_data
  return (λ public. record {
    public = public;
    amount = amount;
    sender = sender;
    signature = signature;
    lock = is_lock;
    block_number = block_number;
  })

unfoldable pub sync_log : Geth → Json → Call Syncing SyncError
sync_log g log = do
  update ← (λ s. ((read_log g log tt).0, s))
  public ← ok_or g.any_account not_signed
  ensure (g.is_accepted (update public)) not_sent
  modify (λ s. record s { sent = s.sent ++ update public ∷ [] })

unfoldable pub sync_logs : Geth → Items → Call Syncing SyncError
sync_logs g no_items = return tt
sync_logs g (item log logs) = do sync_log g log; sync_logs g logs

-- the block to ask from
unfoldable pub from_last : Exec Syncing SyncError Bytes
from_last s = elim s.last_block [
  | none ↦ (ok (ascii "0x0"), s)
  | some text ↦ (if is_utf8 text then ok text else err (pallet invalid_last_block), s)
]

-- the newest block
unfoldable pub get_current_block : Geth → Bytes → Exec Syncing SyncError ℕ
get_current_block g geth_uri = do
  v ← post_json g geth_uri block_request
  text ← ok_or (as_str (member (ascii "result") v)) no_result
  digits ← unwrap (skip_two text)
  ok_or (from_str_radix digits) invalid_block

unfoldable pub get_logs : Geth → Bytes → Bytes → Bytes → Bytes → Exec Syncing SyncError Items
get_logs g contract geth_uri from_block to_block = do
  w ← post_json g geth_uri (logs_request contract from_block to_block)
  ok_or (as_array (member (ascii "result") w)) no_result

unfoldable pub sync_partner_contract : Geth → Bytes → Bytes → Call Syncing SyncError
sync_partner_contract g contract geth_uri = do
  current_block ← get_current_block g geth_uri
  last_block ← from_last
  let to_block = format_block (current_block - g.eth_confirmations)
  logs ← get_logs g contract geth_uri last_block to_block
  sync_logs g logs
  modify (λ s. record s { last_block = some to_block })

-- an error is logged, and the next contract is taken
unfoldable pub sync_each : Geth → Bytes → List Bytes → Call Syncing SyncError
sync_each g geth_uri [] s = (ok tt, s)
sync_each g geth_uri (contract ∷ contracts) s =
    let (o, t) = sync_partner_contract g contract geth_uri s in
    elim o [
      | ok _ ↦ sync_each g geth_uri contracts t
      | err e ↦ sync_each g geth_uri contracts t
      | panic ↦ (panic, t)
    ]

unfoldable pub sync_partner_contracts : Geth → Option Bytes → List Bytes → Call Syncing SyncError
sync_partner_contracts g geth_url contracts s = elim geth_url [
  | none ↦ (ok tt, s)
  | some uri ↦ if is_utf8 uri then sync_each g uri contracts s else (panic, s)
]
