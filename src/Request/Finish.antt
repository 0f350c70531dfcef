-- ===== src/Request/Finish.antt =====
-- What `http_request_parse` checks behind the headers.
pub mod Checked
use lighttpd_autothumb.Array.{Entry}
use lighttpd_autothumb.Request.{
  ◌>>=◌, Conf, Con, Result, ok, stop, reject, reject_all, KeepAlive, unset, keepalive, close,
}
use lighttpd_autothumb.Request.Host.{check_hostname}
use lighttpd_autothumb.Base.{
  ℕ, ◌-◌, ◌/◌, ◌^◌, Bool, true, false, not, ◌&&◌, ◌||◌, Option, none, some, ltb, ◌==◌,
  if◌then◌else◌, get_elem?, set, Bytes,
}

-- The text of `con->request.http_host`.
unfoldable pub host_text : Con → Option Bytes
host_text con = elim con.http_host [
  | none ↦ none
  | some ndx ↦ elim (get_elem? con.headers.elements ndx) [ none ↦ none | some e ↦ some e.item ]
]

unfoldable pub set_entry : Con → Bytes → ℕ → Option (Entry Bytes) → Con
set_entry con host ndx none = con
set_entry con host ndx (some e) =
    let e' : Entry Bytes = record e { item = host } in
    record con { headers = record con.headers { elements = set con.headers.elements ndx e' } }

unfoldable pub set_place : Con → Bytes → Option ℕ → Con
set_place con host none = con
set_place con host (some ndx) = set_entry con host ndx (get_elem? con.headers.elements ndx)

-- What the check has left in the buffer of the host.
unfoldable pub set_host : Con → Option Bytes → Con
set_host con none = con
set_host con (some host) = set_place con host con.http_host

abbrev pub keeps : KeepAlive → Bool → Bool
keeps keepalive http11 = true
keeps close http11 = false
keeps unset http11 = http11

-- A host without characters is not missing: `buffer_is_empty` asks for a buffer that was never set.
abbrev pub is_missing : Option Bytes → Bool
is_missing none = true
is_missing (some host) = false

-- Whether the connection is kept alive, and that HTTP/1.1 has a host.
unfoldable pub set_keep_alive : Con → Result Con
set_keep_alive con =
    let http11 = con.http_version == 1 in
    let con' = record con { keep_alive = keeps con.keep_alive_set http11 } in
    if http11 && is_missing (host_text con) then stop (reject_all 400 con') else ok con'

unfoldable pub check_host : Con → Result Con
check_host con = elim con.http_host [
  | none ↦ ok con
  | some ndx ↦
      let (passed, host) = check_hostname (host_text con) in
      let con' = set_host con host in if passed then ok con' else stop (reject_all 400 con')
]

-- GET is 0, POST 1 and HEAD 2.
unfoldable pub check_method : Con → Result Con
check_method con =
    if con.http_method == 0 || con.http_method == 2
    then (if con.con_length_set && not (con.content_length == 0)
        then stop (reject 400 con)
        else ok con)
    else if con.http_method == 1 && not con.con_length_set
    then stop (reject 411 con)
    else ok con

abbrev pub ssize_max : ℕ
ssize_max = 2 ^ 63 - 1

-- Whether there is a body to read.
unfoldable pub check_length : Conf → Con → Result (Con × Bool)
check_length conf con =
    if not con.con_length_set
    then ok (con, false)
    else if ltb ssize_max con.content_length
    then stop (reject 413 con)
    else if not (conf.max_request_size == 0)
        && ltb conf.max_request_size (con.content_length / 1024)
    then stop (reject 413 con)
    else ok (con, not (con.content_length == 0))

unfoldable pub finish : Conf → Con → Result (Con × Bool)
finish conf con = do
  con1 ← set_keep_alive con
  con2 ← check_host con1
  con3 ← check_method con2
  check_length conf con3
