-- ===== src/Http.antt =====
-- primitives/clamor/src/lib.rs: `http_json_post`, over the host's functions for HTTP, which are the
-- arguments.
use clamor.Base.{
  ℕ, Bool, Option, none, some, [], ◌∷◌, ◌++◌, if◌then◌else◌, ◌==◌, nat_eq, bytes_eq, pair_eq,
}
use clamor.Host.{Bytes, ascii}

-- how a request ended
pub data HttpRequestStatus : Type 0 where
  finished : ℕ → HttpRequestStatus
  deadline_reached io_error invalid_request : HttpRequestStatus

-- What the successive reads of at most 1024 bytes of a response give, up to its end or an error.
pub data Reads : Type 0 where
  at_end read_error : Reads
  chunk : Bytes → Reads → Reads

-- The functions of `sp_io::offchain`. A request is known by its number; what comes back depends also
-- on the body that was written.
pub record Offchain : Type 0 where
  -- "POST" to a URL
  pub http_request_start : Bytes → Option ℕ
  pub http_request_add_header : ℕ → Bytes → Bytes → Bool
  pub http_request_write_body : ℕ → Bytes → Bool
  pub http_response_wait : ℕ → Bytes → HttpRequestStatus
  pub http_response_read_body : ℕ → Bytes → Reads

-- the messages of `Err`
pub data HttpError : Type 0 where
  not_started no_header no_body unexpected_status request_failed : HttpError

pub data HttpResult : Type 0 where
  response : Bytes → HttpResult
  http_error : HttpError → HttpResult
  http_panic : HttpResult

-- the loop over the reads, with what was read so far
unfoldable pub read_response : Bytes → Reads → HttpResult
read_response body at_end = response body
read_response body read_error = http_panic
read_response body (chunk [] reads) = response body
read_response body (chunk (b ∷ bytes) reads) = read_response (body ++ b ∷ bytes) reads

abbrev pub after_wait : Offchain → ℕ → Bytes → HttpRequestStatus → HttpResult
after_wait o request body (finished status) =
    if status == 200
    then read_response [] (o.http_response_read_body request body)
    else http_error unexpected_status
after_wait o request body deadline_reached = http_error request_failed
after_wait o request body io_error = http_error request_failed
after_wait o request body invalid_request = http_error request_failed

unfoldable pub http_json_post : Offchain → Bytes → Bytes → HttpResult
http_json_post o url body = elim (o.http_request_start url) [
  | none ↦ http_error not_started
  | some request ↦
      if o.http_request_add_header request (ascii "Content-Type") (ascii "application/json")
      then if o.http_request_write_body request body
        then if o.http_request_write_body request []
          then after_wait o request body (o.http_response_wait request body)
          else http_panic
        else http_error no_body
      else http_error no_header
]
