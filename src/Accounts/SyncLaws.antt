-- ===== src/Accounts/SyncLaws.antt =====
-- The parts of the synchronisation with a contract on Ethereum: what is posted, read and sent.
use clamor.Exec.{ok, Outcome, err, panic, DispatchError, bind-ok}
use clamor.Json.{Json, Items, no_items, item, member, as_str, as_array}
use clamor.Http.{HttpError, HttpResult, response, http_error, http_panic, http_json_post}
use clamor.Accounts.Types.{EthLockUpdate}
use clamor.Accounts.Hexadecimal.{hex_digit, read_digits, from_str_radix, skip_two}
use clamor.Accounts.Sync.{
  Geth, Syncing, post_json, read_log, sync_log, sync_logs, SyncError, block_request,
  get_current_block, logs_request, get_logs,
}
use clamor.Base.{
  ℕ, ◌≡◌, refl, inl, inr, some, List, [], ◌∷◌, ◌++◌, arith, Option-cases, ◌⊎◌, sym, ap, append-nil,
  ◌+◌, ◌*◌, ◌<◌, ◌∙◌, append_assoc,
}
use clamor.Host.{Bytes, u64_mod, ascii}

-- one update for each log, in their order, for the account that signs
pub data ReadOff (g : Geth) : Items → List EthLockUpdate → Type 0 where
  nothing : ReadOff g no_items []
  one :
      (log : Json) (update : ℕ → EthLockUpdate) (public : ℕ) (logs : Items)
      (updates : List EthLockUpdate)
      → (read_log g log tt).0 ≡ ok update
      → g.any_account ≡ some public
      → ReadOff g logs updates
      → ReadOff g (item log logs) (update public ∷ updates)

-- the response to a request is JSON
pub record Answers (g : Geth) (geth_uri : Bytes) (request v : Json) (body : Bytes) : Type 0 where
  pub reply : Bytes
  pub asked : g.to_string request ≡ some body
  pub answered : http_json_post g.offchain geth_uri body ≡ response reply
  pub parsed : g.from_str reply ≡ some v

HttpResult-cases :
    (r : HttpResult)
    → ((reply : Bytes) × (r ≡ response reply))
      ⊎ (((fault : HttpError) × (r ≡ http_error fault)) ⊎ (r ≡ http_panic))
HttpResult-cases (response reply) = inl (reply, refl)
HttpResult-cases (http_error fault) = inr (inl (fault, refl))
HttpResult-cases http_panic = inr (inr refl)

post_json-Answers :
    (g : Geth) (geth_uri : Bytes) (request v : Json) (s : Syncing)
    → (post_json g geth_uri request s).0 ≡ ok v
    → (body : Bytes) × Answers g geth_uri request v body
      × (post_json g geth_uri request s ≡ (ok v, record s { posted = s.posted ++ body ∷ [] }))
unfolding post_json
post_json-Answers g geth_uri request v s e = elim (Option-cases (g.to_string request)) [
  | inl x ↦ absurd (ground (arith, e, x))
  | inr (body, x) ↦ elim (HttpResult-cases (http_json_post g.offchain geth_uri body)) [
    | inr (inl (fault, y)) ↦ absurd (ground (arith, e, x, y))
    | inr (inr y) ↦ absurd (ground (arith, e, x, y))
    | inl (reply, y) ↦ (
      body,
      record { reply = reply; asked = x; answered = y; parsed = ground (arith, e, x, y) },
      ground (arith, e, x, y),
    )
  ]
]

pub post_json-last_block :
    (g : Geth) (geth_uri : Bytes) (request : Json) (s : Syncing)
    → (post_json g geth_uri request s).1.last_block ≡ s.last_block
unfolding post_json
post_json-last_block g geth_uri request s = ground arith

sync_log-last_block :
    (g : Geth) (log : Json) (s : Syncing) → (sync_log g log s).1.last_block ≡ s.last_block
unfolding sync_log
sync_log-last_block g log s = ground arith

pub sync_logs-last_block :
    (g : Geth) (logs : Items) (s : Syncing) → (sync_logs g logs s).1.last_block ≡ s.last_block
unfolding sync_logs
sync_logs-last_block g no_items s = refl
sync_logs-last_block g (item log logs) s =
    ground (arith, sync_log-last_block g log s, sync_logs-last_block g logs (sync_log g log s).1)

-- what was posted and sent since `s`
pub record Since (g : Geth) (logs : Items) (s t : Syncing) : Type 0 where
  pub updates : List EthLockUpdate
  pub read_off : ReadOff g logs updates
  pub all_sent : t ≡ record s { sent = s.sent ++ updates }

pub Outcome-cases :
    {A : Type 0}
    → (o : Outcome SyncError A)
    → ((a : A) × (o ≡ ok a)) ⊎ (((e : DispatchError SyncError) × (o ≡ err e)) ⊎ (o ≡ panic))
Outcome-cases (ok a) = inl (a, refl)
Outcome-cases (err e) = inr (inl (e, refl))
Outcome-cases panic = inr (inr refl)

sync_log-sent :
    (g : Geth) (log : Json) (s : Syncing)
    → (sync_log g log s).0 ≡ ok tt
    → (update : ℕ → EthLockUpdate) × (public : ℕ) × ((read_log g log tt).0 ≡ ok update)
      × (g.any_account ≡ some public)
      × ((sync_log g log s).1 ≡ record s { sent = s.sent ++ update public ∷ [] })
unfolding sync_log
sync_log-sent g log s e = elim (Outcome-cases (read_log g log tt).0) [
  | inr (inl (x, never)) ↦ absurd (ground (arith, e, never))
  | inr (inr never) ↦ absurd (ground (arith, e, never))
  | inl (update, x) ↦ elim (Option-cases g.any_account) [
    | inl y ↦ absurd (ground (arith, e, x, y))
    | inr (public, y) ↦ (update, public, x, y, ground (arith, e, x, y))
  ]
]

-- what was sent since `s`
pub sync_logs-Since :
    (g : Geth) (logs : Items) (s : Syncing)
    → (sync_logs g logs s).0 ≡ ok tt
    → Since g logs s (sync_logs g logs s).1
unfolding sync_logs
sync_logs-Since g no_items s e = record {
  updates = [];
  read_off = nothing;
  all_sent = ap (λ (us : List EthLockUpdate). record s { sent = us }) (sym (append-nil s.sent));
}
sync_logs-Since g (item log logs) s e = elim (Outcome-cases (sync_log g log s).0) [
  | inr (inl (x, never)) ↦ absurd (ground (arith, e, never))
  | inr (inr never) ↦ absurd (ground (arith, e, never))
  | inl (_, fine) ↦
      let u = (sync_log g log s).1 in
      let here = bind-ok (sync_log g log) (λ _. sync_logs g logs) s tt (ground (arith, fine)) in
      let rest = sync_logs-Since g logs u (ground (arith, here, e)) in
      let (update, public, read, by, sent) = sync_log-sent g log s (ground (arith, fine)) in
      record {
        updates = update public ∷ rest.updates;
        read_off = one log update public logs rest.updates read by rest.read_off;
        all_sent =
            ap (λ (r : Outcome SyncError (Unit {0}) × Syncing). r.1) here
            ∙ rest.all_sent
            ∙ ap (λ (v : Syncing). record v { sent = v.sent ++ rest.updates }) sent
            ∙ ap (λ (us : List EthLockUpdate). record s { sent = us })
                (append_assoc s.sent (update public ∷ []) rest.updates);
      }
]

read_digits-bound :
    (value n : ℕ) (text : Bytes) → value < u64_mod → read_digits value text ≡ some n → n < u64_mod
unfolding read_digits
read_digits-bound value n [] b e = ground (arith, b, e)
read_digits-bound value n (c ∷ text) b e = elim (Option-cases (hex_digit c)) [
  | inl x ↦ absurd (ground (arith, e, x))
  | inr (d, x) ↦ ground (arith, e, x, read_digits-bound (value * 16 + d) n text)
]

from_str_radix-bound : (n : ℕ) (text : Bytes) → from_str_radix text ≡ some n → n < u64_mod
unfolding from_str_radix
from_str_radix-bound n [] e = absurd (ground (arith, e))
from_str_radix-bound n (b ∷ []) e = ground (arith, e, read_digits-bound 0 n (b ∷ []))
from_str_radix-bound n (b ∷ c ∷ text) e =
    ground (arith, e, read_digits-bound 0 n (c ∷ text), read_digits-bound 0 n (b ∷ c ∷ text))

-- the response to a request for the newest block says that it is `n`
pub record Newest (g : Geth) (geth_uri body : Bytes) (n : ℕ) : Type 0 where
  pub found : Json
  pub text : Bytes
  pub digits : Bytes
  pub answers : Answers g geth_uri block_request found body
  pub holds : as_str (member (ascii "result") found) ≡ some text
  pub skipped : skip_two text ≡ some digits
  pub reads : from_str_radix digits ≡ some n

pub get_current_block-posted :
    (g : Geth) (geth_uri : Bytes) (s : Syncing) (n : ℕ)
    → (get_current_block g geth_uri s).0 ≡ ok n
    → (n < u64_mod)
      × ((body : Bytes) × Newest g geth_uri body n
          × (get_current_block g geth_uri s ≡ (ok n, record s { posted = s.posted ++ body ∷ [] })))
unfolding get_current_block
get_current_block-posted g geth_uri s n e =
    elim (Outcome-cases (post_json g geth_uri block_request s).0) [
      | inr (inl (x, never)) ↦ absurd (ground (arith, e, never))
      | inr (inr never) ↦ absurd (ground (arith, e, never))
      | inl (v, fine) ↦
          let (body, answers, after) = post_json-Answers g geth_uri block_request v s fine in
          elim (Option-cases (as_str (member (ascii "result") v))) [
            | inl x ↦ absurd (ground (arith, e, after, x))
            | inr (text, x) ↦ elim (Option-cases (skip_two text)) [
              | inl y ↦ absurd (ground (arith, e, after, x, y))
              | inr (digits, y) ↦ elim (Option-cases (from_str_radix digits)) [
                | inl z ↦ absurd (ground (arith, e, after, x, y, z))
                | inr (m, z) ↦ (
                  ground (arith, e, after, x, y, z, from_str_radix-bound m digits z),
                  (
                    body,
                    record {
                      found = v;
                      text = text;
                      digits = digits;
                      answers = answers;
                      holds = x;
                      skipped = y;
                      reads = ground (arith, e, after, x, y, z);
                    },
                    ground (arith, e, after, x, y, z),
                  ),
                )
              ]
            ]
          ]
    ]

pub get_logs-posted :
    (g : Geth) (contract geth_uri from_block to_block : Bytes) (s : Syncing) (logs : Items)
    → (get_logs g contract geth_uri from_block to_block s).0 ≡ ok logs
    → (body : Bytes) × (w : Json) × Answers g geth_uri
        (logs_request contract from_block to_block)
        w
        body
      × (as_array (member (ascii "result") w) ≡ some logs)
      × (get_logs g contract geth_uri from_block to_block s
          ≡ (ok logs, record s { posted = s.posted ++ body ∷ [] }))
unfolding get_logs
get_logs-posted g contract geth_uri from_block to_block s logs e =
    let request = logs_request contract from_block to_block in
    elim (Outcome-cases (post_json g geth_uri request s).0) [
      | inr (inl (x, never)) ↦ absurd (ground (arith, e, never))
      | inr (inr never) ↦ absurd (ground (arith, e, never))
      | inl (w, fine) ↦
          let (body, answers, after) = post_json-Answers g geth_uri request w s fine in
          (body, w, answers, ground (arith, e, after), ground (arith, e, after))
    ]
