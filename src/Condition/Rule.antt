-- ===== src/Condition/Rule.antt =====
-- The rule of one condition: the field of the request that it is about, and the comparison. The regular
-- expression of a block is a parameter, the test that `pcre_exec` makes, and so is `inet_aton`, which
-- gives an address as a number. A shift takes its count by 32, as on the machines of the time.
use lighttpd_autothumb.CString.{strchr, strtoll, pattern_of}
use lighttpd_autothumb.Number.{pos, ltostr}
use lighttpd_autothumb.Base.{
  ℕ, ◌+◌, ◌-◌, ◌/◌, ◌%◌, ◌^◌, Bool, true, false, not, ◌||◌, Option, none, some, List, [], ◌∷◌, ◌++◌,
  ltb, ◌==◌, if◌then◌else◌, length, drop, Bytes, codes, equal,
}

pub data CondResult : Type 0 where
  undecided failed holds : CondResult

pub data Cond : Type 0 where
  unset eq match ne nomatch : Cond

-- `comp_key_t`
abbrev pub comp_server_socket : ℕ
comp_server_socket = 1

abbrev pub comp_http_url : ℕ
comp_http_url = 2

abbrev pub comp_http_host : ℕ
comp_http_host = 3

abbrev pub comp_http_referer : ℕ
comp_http_referer = 4

abbrev pub comp_http_user_agent : ℕ
comp_http_user_agent = 5

abbrev pub comp_http_language : ℕ
comp_http_language = 6

abbrev pub comp_http_cookie : ℕ
comp_http_cookie = 7

abbrev pub comp_http_remote_ip : ℕ
comp_http_remote_ip = 8

abbrev pub comp_http_query_string : ℕ
comp_http_query_string = 9

abbrev pub comp_http_scheme : ℕ
comp_http_scheme = 10

abbrev pub comp_http_request_method : ℕ
comp_http_request_method = 11

-- A `data_config`: the numbers of the block around it and of the one in front of it, those of the
-- blocks behind it in the chain, and the condition.
pub record Block : Type 0 where
  pub parent : Option ℕ
  pub prev : Option ℕ
  pub followers : List ℕ
  pub comp : ℕ
  pub cond : Cond
  pub string : Bytes
  pub regex : Bytes → Bool

-- What the conditions are about; a buffer with nothing in use is `none`. `dst_v4` is the address of the
-- client where it is one of IPv4.
pub record Values : Type 0 where
  pub authority : Option Bytes
  pub tlsext_server_name : Option Bytes
  pub port : ℕ
  pub dst_addr : Option Bytes
  pub dst_v4 : Option ℕ
  pub inet_aton : Bytes → Option ℕ
  pub scheme : Option Bytes
  pub path : Option Bytes
  pub query : Option Bytes
  pub srv_token : Option Bytes
  pub header : Bytes → Option Bytes
  pub method_name : Option Bytes

abbrev pub has_colon : Bytes → Bool
has_colon [] = false
has_colon (c ∷ s) = c == b':' || has_colon s

abbrev pub before : ℕ → Bytes → Bytes
before c [] = []
before c (d ∷ s) = if d == c then [] else d ∷ before c s

-- The two pointers are the same only where both are NULL: they point into two texts.
unfoldable pub host_text : Values → Bytes → Bytes → Bytes
host_text v string host =
    if has_colon string
    then host ++ (codes ":" ++ ltostr (pos v.port))
    else if has_colon host
    then before b':' host
    else host

abbrev pub is_equality : Cond → Bool
is_equality eq = true
is_equality ne = true
is_equality unset = false
is_equality match = false
is_equality nomatch = false

unfoldable pub host_value : Values → Block → Option Bytes
host_value v block = elim v.authority [
  | some host ↦ some (if is_equality block.cond then host_text v block.string host else host)
  | none ↦ elim v.tlsext_server_name [ some name ↦ some name | none ↦ some [] ]
]

abbrev pub or_empty : Option Bytes → Option Bytes
or_empty none = some []
or_empty (some text) = some text

unfoldable pub same : Option Bytes → Bytes → Bool
same none string = false
same (some text) string = equal text string

abbrev pub of_bool : Bool → CondResult
of_bool true = holds
of_bool false = failed

-- `switch(dc->cond)` on the text of the field.
unfoldable pub compare_text : Cond → (Bytes → Bool) → Bytes → Option Bytes → CondResult
compare_text eq regex string l = of_bool (same l string)
compare_text ne regex string l = of_bool (not (same l string))
compare_text match regex string none = failed
compare_text match regex string (some text) = of_bool (regex text)
compare_text nomatch regex string none = holds
compare_text nomatch regex string (some text) = of_bool (not (regex text))
compare_text unset regex string l = failed

-- The bits that `~((1 << (32 - nm_bits)) - 1)` leaves out.
unfoldable pub host_bits : ℕ → ℕ
host_bits nm_bits = (32 + 2 ^ 32 - nm_bits) % 32

-- `address/bits`, where `bits` is the text behind the slash.
unfoldable pub compare_net : Values → Cond → Bytes → Bytes → ℕ → CondResult
compare_net v cond string [] dst = failed
compare_net v cond string (b ∷ bits) dst =
    let (value, err) = strtoll (b ∷ bits) in
    let shift = 2 ^ host_bits (pattern_of value % 2 ^ 32) in
    if ltb 0 (length err) then failed else elim (v.inet_aton (before b'/' string)) [
      | none ↦ failed
      | some addr ↦
          let inside = addr / shift == dst / shift in
          elim cond [ eq ↦ of_bool inside | _ ↦ of_bool (not inside) ]
    ]

unfoldable pub compare_ip : Values → Block → Option Bytes → Option ℕ → CondResult
compare_ip v block none dst = compare_text block.cond block.regex block.string v.dst_addr
compare_ip v block (some slash) none = compare_text block.cond block.regex block.string v.dst_addr
compare_ip v block (some slash) (some dst) =
    if is_equality block.cond
    then compare_net v block.cond block.string (drop 1 slash) dst
    else compare_text block.cond block.regex block.string v.dst_addr

-- The field of each kind of condition but the address; none where there is no such kind.
unfoldable pub field_value : Values → Block → Option (Option Bytes)
field_value v block =
    if block.comp == comp_http_host
    then some (host_value v block)
    else if block.comp == comp_http_scheme
    then some v.scheme
    else if block.comp == comp_http_url
    then some v.path
    else if block.comp == comp_http_query_string
    then some v.query
    else if block.comp == comp_server_socket
    then some v.srv_token
    else if block.comp == comp_http_referer
    then some (or_empty (v.header (codes "Referer")))
    else if block.comp == comp_http_cookie
    then some (or_empty (v.header (codes "Cookie")))
    else if block.comp == comp_http_user_agent
    then some (or_empty (v.header (codes "User-Agent")))
    else if block.comp == comp_http_request_method
    then some v.method_name
    else if block.comp == comp_http_language
    then some (or_empty (v.header (codes "Accept-Language")))
    else none

-- `switch (dc->comp)` and what follows.
unfoldable pub check_rule : Values → Block → CondResult
check_rule v block =
    if block.comp == comp_http_remote_ip
    then compare_ip v block (strchr b'/' block.string) v.dst_v4
    else elim (field_value v block) [
      | none ↦ failed
      | some l ↦ compare_text block.cond block.regex block.string l
    ]
