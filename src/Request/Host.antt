-- ===== src/Request/Host.antt =====
-- `request_check_hostname` of src/request.c, for a host without a zero byte.
pub mod Safe
use lighttpd_autothumb.Chars.{light_isdigit, light_isxdigit, light_isalnum}
use lighttpd_autothumb.Base.{
  ℕ, ◌+◌, Bool, true, false, not, ◌&&◌, ◌||◌, Option, none, some, [], ◌∷◌, ◌++◌, ltb, ◌==◌,
  if◌then◌else◌, get_or, drop, Bytes,
}

abbrev pub all_digits : Bytes → Bool
all_digits [] = true
all_digits (c ∷ s) = light_isdigit c && all_digits s

-- Behind the `]`; anything but a colon ends the check.
unfoldable pub check_ipv6_port : Bytes → Bool
check_ipv6_port [] = true
check_ipv6_port (c ∷ s) = if c == b':' then all_digits s else true

-- The text behind the `[`, with the colons that are counted.
unfoldable pub check_ipv6 : ℕ → Bytes → Bool
check_ipv6 colon_cnt [] = false
check_ipv6 colon_cnt (c ∷ s) =
    let rest = check_ipv6 (if c == b':' then colon_cnt + 1 else colon_cnt) s in
    if c == b']'
    then check_ipv6_port s
    else if c == b':'
    then (if ltb 7 (colon_cnt + 1) then false else rest)
    else if light_isxdigit c
    then rest
    else false

pub data Stage : Type 0 where
  domainlabel toplabel : Stage

-- -1, 0 and 1 of `is_ip`.
pub data IsIp : Type 0 where
  unknown no_ip ip : IsIp

pub record Scan : Type 0 where
  pub stage : Stage
  pub label_len : ℕ
  pub is_ip : IsIp
  pub level : ℕ

unfoldable pub start : Scan
start = record { stage = toplabel; label_len = 0; is_ip = unknown; level = 0 }

-- The dot that ends the top label, with the character on its right.
unfoldable pub leave_top : Scan → ℕ → Option Scan
leave_top st right =
    let st' = record st { stage = domainlabel; label_len = 0; level = st.level + 1 } in
    if st.label_len == 0 then none else elim st.is_ip [
      | no_ip ↦ if light_isalnum right then some st' else none
      | _ ↦
          if light_isdigit right
          then (if right == b'-' then none else some (record st' { is_ip = ip }))
          else some (record st' { is_ip = no_ip })
    ]

unfoldable pub counted : Scan → Scan
counted st = record st { label_len = st.label_len + 1 }

-- `case TOPLABEL`: `last` is the character at the end of the name, `at_front` the one at index 0.
unfoldable pub top_step : Bool → Bool → ℕ → ℕ → Scan → Option Scan
top_step last at_front right c st =
    if c == b'.'
    then (if last then (if at_front then none else some st) else leave_top st right)
    else if at_front
    then (if light_isalnum c then some (counted st) else none)
    else if c == b'-' || light_isalnum c
    then some (
        counted (elim st.is_ip [
          | unknown ↦ if light_isdigit c then st else record st { is_ip = no_ip }
          | _ ↦ st
        ]))
    else none

unfoldable pub next_label : Scan → Scan
next_label st = record st { label_len = 0; level = st.level + 1 }

unfoldable pub domain_step : Bool → ℕ → ℕ → Scan → Option Scan
domain_step at_front right c st = elim st.is_ip [
  | ip ↦
      if c == b'.'
      then (if st.label_len == 0 then none else some (next_label st))
      else if light_isdigit c
      then some (counted st)
      else none
  | _ ↦
      if c == b'.'
      then (if st.label_len == 0 || right == b'-' then none else some (next_label st))
      else if at_front
      then (if light_isalnum c then some (counted st) else none)
      else if c == b'-' || light_isalnum c
      then some (counted st)
      else none
]

unfoldable pub step : Bool → Bool → ℕ → ℕ → Scan → Option Scan
step last at_front right c st = elim st.stage [
  | toplabel ↦ top_step last at_front right c st
  | domainlabel ↦ domain_step at_front right c st
]

abbrev pub is_nil : Bytes → Bool
is_nil [] = true
is_nil (c ∷ s) = false

-- `for (i = host_len; i-- > 0; )`: from the right end to the left.
unfoldable pub scan : Bool → Bytes → Option Scan
scan at_front [] = some start
scan at_front (c ∷ s) = elim (scan false s) [
  | none ↦ none
  | some st ↦ step (is_nil s) at_front (get_or s 0 0) c st
]

-- What is checked behind the loop.
unfoldable pub is_complete : Scan → Bool
is_complete st =
    not (elim st.is_ip [ ip ↦ not (st.level == 3) | _ ↦ false ]) && not (st.label_len == 0)

-- The host in front of its first colon.
unfoldable pub name_of : Bytes → Bytes
name_of [] = []
name_of (c ∷ s) = if c == b':' then [] else c ∷ name_of s

-- The first colon and what follows it.
unfoldable pub port_of : Bytes → Bytes
port_of [] = []
port_of (c ∷ s) = if c == b':' then c ∷ s else port_of s

-- A dot at the end is dropped.
unfoldable pub strip_dot : Bytes → Bytes
strip_dot [] = []
strip_dot (c ∷ []) = if c == b'.' then [] else c ∷ []
strip_dot (c ∷ d ∷ s) = c ∷ strip_dot (d ∷ s)

unfoldable pub check_name : Bytes → Bool
check_name name =
    not (is_nil name) && elim (scan true name) [ none ↦ false | some st ↦ is_complete st ]

-- Whether 0 is returned, and the host that is left in the buffer. Where the port is not a number, or
-- the name in front of it is empty, the buffer is as it was.
unfoldable pub check_hostname : Option Bytes → Bool × Option Bytes
check_hostname none = (true, none)
check_hostname (some []) = (false, some [])
check_hostname (some (c ∷ s)) =
    if c == b'['
    then (check_ipv6 0 s, some (c ∷ s))
    else (let name = name_of (c ∷ s) in
        let port = port_of (c ∷ s) in
        if all_digits (drop 1 port)
        then (if is_nil name
            then (false, some (c ∷ s))
            else (check_name (strip_dot name), some (strip_dot name ++ port)))
        else (false, some (c ∷ s)))
