-- ===== src/Uri.antt =====
-- What src/mod_access.c and src/mod_alias.c decide from the cleaned path of a request. The
-- settings come in as the lists that the configuration gives; a value of a buffer with nothing in
-- use is `none`. `strncmp` and `strncasecmp` are used on texts of the compared length.
pub mod Access
pub mod Alias
use lighttpd_autothumb.Base.{
  ℕ, ◌+◌, ◌-◌, Bool, true, false, ◌&&◌, Option, none, some, List, [], ◌∷◌, ◌++◌, map, ltb, leb,
  if◌then◌else◌, length, take, drop, Bytes, equal,
}

-- `tolower` in the C locale.
unfoldable pub lower : ℕ → ℕ
lower c = if leb b'A' c && leb c b'Z' then c + 32 else c

-- `0 == strncasecmp(a, b, n)`, or `0 == strncmp(a, b, n)`, where both texts have `n` bytes.
unfoldable pub same_text : Bool → Bytes → Bytes → Bool
same_text fold a b = if fold then equal (map lower a) (map lower b) else equal a b

pub data HandlerResult : Type 0 where
  unset go_on finished comeback wait_for_event error wait_for_fd : HandlerResult

pub record Connection : Type 0 where
  pub http_status : ℕ
  pub direct : Bool

-- The loop of `mod_access_uri_handler`: whether a value of `access_deny` ends the path.
unfoldable pub access_denied : Bool → Bytes → List (Option Bytes) → Bool
access_denied fold path [] = false
access_denied fold path (none ∷ deny) = access_denied fold path deny
access_denied fold path (some value ∷ deny) =
    let rest = access_denied fold path deny in
    if ltb (length path) (length value)
    then rest
    else if same_text fold (drop (length path - length value) path) value
    then true
    else rest

-- `mod_access_uri_handler`; the path is `none` where nothing of it is in use.
unfoldable pub access_uri_handler :
    Bool → Option Bytes → List (Option Bytes) → Connection → HandlerResult × Connection
access_uri_handler fold none deny con = (go_on, con)
access_uri_handler fold (some path) deny con =
    if access_denied fold path deny
    then (finished, record con { http_status = 403; direct = true })
    else (go_on, con)

pub record Physical : Type 0 where
  pub basedir : Bytes
  pub path : Option Bytes

-- The loop of `mod_alias_physical_handler` over pairs of an alias and its target.
unfoldable pub alias_loop : Bool → Bytes → List (Option Bytes × Bytes) → Physical → Physical
alias_loop fold uri [] physical = physical
alias_loop fold uri ((none, value) ∷ alias) physical = alias_loop fold uri alias physical
alias_loop fold uri ((some key, value) ∷ alias) physical =
    let rest = alias_loop fold uri alias physical in
    if ltb (length uri) (length key)
    then rest
    else if same_text fold (take (length key) uri) key
    then record { basedir = value; path = some (value ++ drop (length key) uri) }
    else rest

-- `mod_alias_physical_handler`; `basedir` ends with a slash, which is counted to the URI, and the
-- path begins with `basedir`; for an empty `basedir` the source would read from one byte in front of
-- the path. The handler goes on in every case.
unfoldable pub alias_physical_handler : Bool → List (Option Bytes × Bytes) → Physical → Physical
alias_physical_handler fold alias physical = elim physical.path [
  | none ↦ physical
  | some path ↦ alias_loop fold (drop (length physical.basedir - 1) path) alias physical
]
