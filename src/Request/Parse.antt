-- ===== src/Request/Parse.antt =====
-- `http_request_parse` as a whole.
pub mod Accepted
pub mod Written
use lighttpd_autothumb.Request.{
  ◌>>=◌, Conf, Con, Result, ok, stop, fault, reject_all, insert_header, unset,
}
use lighttpd_autothumb.Array.{used}
use lighttpd_autothumb.Request.Line.{parse_line}
use lighttpd_autothumb.Request.Headers.{header_loop, in_key}
use lighttpd_autothumb.Request.Finish.{finish}
use lighttpd_autothumb.Base.{
  ℕ, ◌+◌, ◌-◌, Bool, false, ◌&&◌, Option, none, some, [], ◌∷◌, ltb, if◌then◌else◌, length, take,
  drop, Bytes, codes, equal,
}

-- A line end that is left from the body of the request before is skipped.
unfoldable pub skip_line_end : ℕ → Bytes → Bytes
skip_line_end request_count text =
    if ltb 1 request_count && equal (take 2 text) (b'\r' ∷ b'\n' ∷ []) then drop 2 text else text

unfoldable pub check_uri : Con → Result Con
check_uri con = elim con.uri [
  | none ↦ ok con
  | some path ↦ elim path [ [] ↦ stop (reject_all 400 con) | c ∷ s ↦ ok con ]
]

-- The host of the request line becomes the Host header.
unfoldable pub add_host : Con → Result Con
add_host con = elim con.reqline_host [
  | none ↦ ok con
  | some h ↦ insert_header (codes "Host") h (record con { http_host = some (used con.headers) })
]

-- The local variables of a new call.
unfoldable pub begin : Con → Con
begin con = record con { keep_alive_set = unset; con_length_set = false; reqline_host = none }

-- The headers, if the first line has an end; `text` is the whole request.
unfoldable pub read_headers : Conf → Bytes → Option Bytes → Con → Result Con
read_headers conf text none con = ok (record con { header_len = length text + 1 })
read_headers conf text (some rest) con = do
  read ← header_loop conf false none (in_key []) con rest
  ok (record read.0 { header_len = length text - length read.1 })

-- The connection, and whether there is a body to read.
unfoldable pub request_parse : Conf → ℕ → Bytes → Con → Result (Con × Bool)
request_parse conf request_count request con = do
  let text = skip_line_end request_count request
  line ← parse_line conf text (begin con)
  con1 ← check_uri line.0
  con2 ← add_host con1
  con3 ← read_headers conf text line.1 con2
  finish conf con3

-- What the caller sees: an early return is 0.
unfoldable pub outcome : Result (Con × Bool) → Option (Con × Bool)
outcome (ok r) = some r
outcome (stop con) = some (con, false)
outcome fault = none
