-- ===== src/Accounts/SyncRuns.antt =====
-- The synchronisation with the contracts on Ethereum: what it asks for, what it sends, and when it
-- goes on to later blocks.
use clamor.Exec.{pallet, ok, err}
use clamor.Json.{member, as_array, Json, Items}
use clamor.Accounts.Types.{EthLockUpdate}
use clamor.Accounts.Hexadecimal.{format_block}
use clamor.Accounts.Sync.{
  Geth, invalid_last_block, Syncing, block_request, logs_request, from_last, get_current_block,
  get_logs, sync_partner_contract, sync_logs,
}
use clamor.Accounts.SyncLaws.{
  ReadOff, Answers, Newest, post_json-last_block, Outcome-cases, get_current_block-posted,
  get_logs-posted, sync_logs-last_block, sync_logs-Since,
}
use clamor.Base.{
  ℕ, ◌<◌, ◌≡◌, refl, ◌≢◌, ◌⊎◌, some, List, [], ◌∷◌, ◌++◌, arith, get_or, inl, inr, ◌-◌,
  append_assoc,
}
use clamor.Host.{Bytes, u64_mod, ascii}

-- what a synchronisation with `contract` that succeeds has done
pub record Synced (g : Geth) (contract geth_uri : Bytes) (s t : Syncing) : Type 0 where
  pub newest : ℕ
  pub to_block : ℕ
  pub confirmed : to_block ≡ newest - g.eth_confirmations
  pub range : to_block < u64_mod
  pub first : Bytes
  pub asked_newest : Newest g geth_uri first newest
  pub second : Bytes
  pub found : Json
  pub logs : Items
  pub updates : List EthLockUpdate
  pub answers :
      Answers g geth_uri
        (logs_request contract (get_or s.last_block (ascii "0x0")) (format_block to_block))
        found
        second
  pub holds : as_array (member (ascii "result") found) ≡ some logs
  pub read_off : ReadOff g logs updates
  pub after : t ≡ (record {
    last_block = some (format_block to_block);
    posted = s.posted ++ first ∷ second ∷ [];
    sent = s.sent ++ updates;
  })

get_current_block-last_block :
    (g : Geth) (geth_uri : Bytes) (s : Syncing)
    → (get_current_block g geth_uri s).1.last_block ≡ s.last_block
unfolding get_current_block
get_current_block-last_block g geth_uri s =
    ground (arith, post_json-last_block g geth_uri block_request s)

get_logs-last_block :
    (g : Geth) (contract geth_uri from_block to_block : Bytes) (s : Syncing)
    → (get_logs g contract geth_uri from_block to_block s).1.last_block ≡ s.last_block
unfolding get_logs
get_logs-last_block g contract geth_uri from_block to_block s =
    ground (arith, post_json-last_block g geth_uri (logs_request contract from_block to_block) s)

from_last-ok :
    (s : Syncing)
    → (from_last s ≡ (ok (get_or s.last_block (ascii "0x0")), s))
      ⊎ (from_last s ≡ (err (pallet invalid_last_block), s))
unfolding from_last
from_last-ok s = ground arith

-- a synchronisation that succeeds, or one that does not and stays at its block
abbrev Ended : Geth → Bytes → Bytes → Syncing → Type 0
Ended g contract geth_uri s =
    let (o, t) = sync_partner_contract g contract geth_uri s in
    ((o ≡ ok tt) × Synced g contract geth_uri s t) ⊎ ((o ≢ ok tt) × (t.last_block ≡ s.last_block))

abbrev origin : Syncing → Bytes
origin s = get_or s.last_block (ascii "0x0")

-- the storage after a request
abbrev asked_for : Bytes → Syncing → Syncing
asked_for body s = record s { posted = s.posted ++ body ∷ [] }

-- from the logs on
logs-Ended :
    (g : Geth) (contract geth_uri : Bytes) (s : Syncing) (n : ℕ) (body second : Bytes) (w : Json)
    (logs : Items)
    → let u = asked_for body s in
      let from = origin s in
      let to = format_block (n - g.eth_confirmations) in
      n < u64_mod
      → Newest g geth_uri body n
      → get_current_block g geth_uri s ≡ (ok n, u)
      → from_last u ≡ (ok from, u)
      → get_logs g contract geth_uri from to u ≡ (ok logs, asked_for second u)
      → Answers g geth_uri (logs_request contract from to) w second
      → as_array (member (ascii "result") w) ≡ some logs
      → Ended g contract geth_uri s
unfolding sync_partner_contract
logs-Ended g contract geth_uri s n body second w logs range new asked start got answers holds =
    let v = asked_for second (asked_for body s) in
    let same = sync_logs-last_block g logs v in
    elim (Outcome-cases (sync_logs g logs v).0) [
      | inr (inl (x, never)) ↦ inr (
        λ p. ground (arith, p, asked, start, got, never),
        ground (arith, asked, start, got, never, same),
      )
      | inr (inr never) ↦ inr (
        λ p. ground (arith, p, asked, start, got, never),
        ground (arith, asked, start, got, never, same),
      )
      | inl (_, done) ↦
          let since = sync_logs-Since g logs v (ground (arith, done)) in
          inl (
            ground (arith, asked, start, got, done),
            record {
              newest = n;
              to_block = n - g.eth_confirmations;
              confirmed = refl;
              range = omega (arith, range);
              first = body;
              asked_newest = new;
              second = second;
              found = w;
              logs = logs;
              updates = since.updates;
              answers = answers;
              holds = holds;
              read_off = since.read_off;
              after = ground (
                arith,
                asked,
                start,
                got,
                done,
                since.all_sent,
                append_assoc s.posted (body ∷ []) (second ∷ []),
              );
            },
          )
    ]

-- A synchronisation with a contract either succeeds or stays at its block. If it succeeds, it has
-- asked for the newest block, and the response gave its number; it has then asked for the logs of
-- the contract from the block where the last success stopped, or 0, to the newest one less
-- EthConfirmations, or 0 if that is more, which is within 64 bits and becomes the block to start
-- from; the response holds a list of logs, and one update for each of them has been sent, in their
-- order.
pub sync_partner_contract-Synced :
    (g : Geth) (contract geth_uri : Bytes) (s : Syncing)
    → let (o, t) = sync_partner_contract g contract geth_uri s in
      ((o ≡ ok tt) × Synced g contract geth_uri s t) ⊎ ((o ≢ ok tt) × (t.last_block ≡ s.last_block))
unfolding sync_partner_contract
sync_partner_contract-Synced g contract geth_uri s =
    elim (Outcome-cases (get_current_block g geth_uri s).0) [
      | inr (inl (x, never)) ↦ inr (
        λ p. ground (arith, p, never),
        ground (arith, never, get_current_block-last_block g geth_uri s),
      )
      | inr (inr never) ↦ inr (
        λ p. ground (arith, p, never),
        ground (arith, never, get_current_block-last_block g geth_uri s),
      )
      | inl (n, fine) ↦
          let (range, (body, new, asked)) = get_current_block-posted g geth_uri s n fine in
          let u = asked_for body s in
          let to = format_block (n - g.eth_confirmations) in
          let same = get_logs-last_block g contract geth_uri (origin s) to u in
          elim (from_last-ok u) [
            | inr stop ↦ inr (λ p. ground (arith, p, asked, stop), ground (arith, asked, stop))
            | inl start ↦ elim (Outcome-cases (get_logs g contract geth_uri (origin s) to u).0) [
              | inr (inl (x, never)) ↦ inr (
                λ p. ground (arith, p, asked, start, never),
                ground (arith, asked, start, never, same),
              )
              | inr (inr never) ↦ inr (
                λ p. ground (arith, p, asked, start, never),
                ground (arith, asked, start, never, same),
              )
              | inl (logs, there) ↦
                  let (second, w, answers, holds, got) =
                    get_logs-posted g contract geth_uri (origin s) to u logs there in
                  logs-Ended g contract geth_uri s n body second w logs range new asked start got
                    answers holds
            ]
          ]
    ]
