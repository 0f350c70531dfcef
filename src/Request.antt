-- ===== src/Request.antt =====
-- The parsing of a request: `http_request_parse` of src/request.c. The parts of the connection that it
-- reads and writes are `Con`, and what the configuration gives is `Conf`.
-- The code puts zero bytes into its copy of the request and keeps pointers into it; here each part of
-- it is a text. `http_host` is the place of the host among the headers, so that it follows what is
-- appended to that header; `http_range` and the other pointers to a value are the texts that they
-- pointed to when they were set. `log_error_write` is left out.
pub mod Host
pub mod Line
pub mod Split
pub mod Field
pub mod Headers
pub mod Finish
pub mod Parse
pub mod Kept
use lighttpd_autothumb.Array.{Array, insert_key}
use lighttpd_autothumb.Base.{ℕ, Bool, true, false, Option, none, some, ◌∷◌, ◌++◌, Bytes}

pub record Conf : Type 0 where
  pub allow_http11 : Bool
  pub reject_expect_100_with_417 : Bool
  pub max_request_size : ℕ

pub data KeepAlive : Type 0 where
  unset keepalive close : KeepAlive

-- What belongs to the connection, and the local variables `keep_alive_set`, `con_length_set` and
-- `reqline_host` of the parser.
pub record Con : Type 0 where
  pub http_status : ℕ
  pub keep_alive : Bool
  pub response_keep_alive : Bool
  pub http_method : ℕ
  pub http_version : ℕ
  pub request_line : Option Bytes
  pub uri : Option Bytes
  pub orig_uri : Option Bytes
  pub headers : Array Bytes
  pub http_host : Option ℕ
  pub content_length : ℕ
  pub http_content_type : Option Bytes
  pub http_if_modified_since : Option Bytes
  pub http_if_none_match : Option Bytes
  pub http_range : Option Bytes
  pub header_len : ℕ
  pub keep_alive_set : KeepAlive
  pub con_length_set : Bool
  pub reqline_host : Option Bytes

-- `stop` is an early `return 0`, and `fault` an access outside the headers.
pub data Result {ℓ} (A : Type ℓ) : Type ℓ where
  ok : A → Result A
  stop : Con → Result A
  fault : Result A

infixl 5 ◌>>=◌
abbrev pub ◌>>=◌ {ℓ κ} : {A : Type ℓ} {B : Type κ} → Result A → (A → Result B) → Result B
ok a >>= f = f a
stop con >>= f = stop con
fault >>= f = fault

-- A request that is refused; `response.keep_alive` is reset in some places only.
unfoldable pub reject : ℕ → Con → Con
reject status con = record con { http_status = status; keep_alive = false }

unfoldable pub reject_all : ℕ → Con → Con
reject_all status con = record con {
  http_status = status;
  keep_alive = false;
  response_keep_alive = false;
}

-- `data_string_insert_dup`: the values are joined.
unfoldable pub string_insert_dup : Bytes → Bytes → Bytes
string_insert_dup old new = old ++ (b',' ∷ b' ' ∷ new)

-- `array_insert_unique(con->request.headers, ds)`; all elements are strings.
unfoldable pub insert_header : Bytes → Bytes → Con → Result Con
insert_header key value con =
    elim (insert_key string_insert_dup (λ a b. true) con.headers key value) [
      | none ↦ fault
      | some (headers', done) ↦ ok (record con { headers = headers' })
    ]
