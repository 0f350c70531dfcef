-- ===== src/Request/Headers.antt =====
-- The loop over the header lines of a request.
pub mod Printed
pub mod Twice
use lighttpd_autothumb.Array.{Entry, get_index}
use lighttpd_autothumb.Request.{
  ◌>>=◌, Conf, Con, Result, ok, stop, fault, ◌>>=◌, reject, reject_all,
}
use lighttpd_autothumb.Request.Line.{starts_with_lf}
use lighttpd_autothumb.Request.Split.{is_ws}
use lighttpd_autothumb.Request.Host.{is_nil}
use lighttpd_autothumb.Request.Field.{take_field}
use lighttpd_autothumb.Base.{
  ℕ, Bool, true, false, not, ◌&&◌, ◌||◌, Option, none, some, List, [], ◌∷◌, ◌++◌, ltb, ◌==◌,
  if◌then◌else◌, get_elem?, set, drop, Bytes, codes, equal,
}

-- What a byte is in a key.
pub data KeyByte : Type 0 where
  colon blank return bad plain : KeyByte

abbrev pub is_separator : ℕ → List ℕ → Bool
is_separator c [] = false
is_separator c (d ∷ ds) = c == d || is_separator c ds

unfoldable pub key_byte : ℕ → KeyByte
key_byte c =
    if c == b':'
    then colon
    else if c == b' ' || c == b'\t'
    then blank
    else if c == b'\r'
    then return
    else if ltb c 32 || c == 127 || is_separator c (codes "()<>@,;\\\"/[]?={}")
    then bad
    else plain

-- Whether the blanks that follow end at a colon.
unfoldable pub blanks_end : Bytes → Bool
blanks_end [] = false
blanks_end (c ∷ s) = let rest = blanks_end s in if is_ws c then rest else c == b':'

-- The blanks at the end of a value are dropped.
unfoldable pub strip_trailing : Bytes → Bytes
strip_trailing [] = []
strip_trailing (c ∷ s) = elim (strip_trailing s) [
  | [] ↦ (if is_ws c then [] else c ∷ [])
  | d ∷ t ↦ c ∷ d ∷ t
]

-- The value is added to the header that the search found. A key that it does not find drops the value.
unfoldable pub append_place : Bytes → Con → Option ℕ → Result Con
append_place value con none = ok con
append_place value con (some ndx) = elim (get_elem? con.headers.elements ndx) [
  | none ↦ fault
  | some e ↦
      let e' : Entry Bytes = record e { item = e.item ++ value } in
      ok
        (record con { headers = record con.headers { elements = set con.headers.elements ndx e' } })
]

-- The key of the header line before, the value that is folded, and the header that it is added to.
unfoldable pub append_folded : Bytes → Bytes → Con → Result Con
append_folded key value con = elim (get_index con.headers (key ++ 0 ∷ [])) [
  | none ↦ fault
  | some r ↦ append_place value con r.0
]

unfoldable pub folded : Option Bytes → Bytes → Con → Result Con
folded none value con = stop (reject_all 400 con)
folded (some []) value con = stop (reject_all 400 con)
folded (some (c ∷ key)) value con = append_folded (c ∷ key) value con

-- The end of a line that is not folded. A value of blanks is ignored.
unfoldable pub end_line : Conf → Bytes → Bytes → Con → Result Con
end_line conf key value con = elim (strip_trailing value) [
  | [] ↦ ok con
  | c ∷ s ↦ take_field conf key (c ∷ s) con
]

-- What of the line is read: a part of the key, or the key and a part of the value, or a part of a
-- value that belongs to the line before.
pub data Part : Type 0 where
  in_key : Bytes → Part
  in_value : Bytes → Bytes → Part
  in_folding : Bytes → Part

-- What the loop does with a byte.
pub data Move : Type 0 where
  go : Part → Move
  line_end header_end refuse refuse_all : Move

-- In a key: `s` is what follows the byte.
unfoldable pub key_move : Bytes → ℕ → Bytes → Move
key_move key c s = elim (key_byte c) [
  | colon ↦ go (in_value key [])
  | blank ↦
      if is_nil key
      then go (in_folding (c ∷ []))
      else if blanks_end s
      then go (in_key (key ++ c ∷ []))
      else refuse_all
  | return ↦ if is_nil key && starts_with_lf s then header_end else refuse_all
  | bad ↦ refuse_all
  | plain ↦ go (in_key (key ++ c ∷ []))
]

-- In a value: blanks in front of it are left out.
unfoldable pub value_move : (Bytes → Part) → Bytes → ℕ → Bytes → Move
value_move part value c s =
    if c == b'\r'
    then (if starts_with_lf s then line_end else refuse_all)
    else if ltb c 32 && not (c == b'\t')
    then refuse
    else go (part (if is_ws c && equal value [] then value else value ++ c ∷ []))

unfoldable pub move : Part → ℕ → Bytes → Move
move (in_key key) c s = key_move key c s
move (in_value key value) c s = value_move (in_value key) value c s
move (in_folding value) c s = value_move in_folding value c s

-- The end of a line, with the key of the line before it, and the key that the next line is folded to.
unfoldable pub close_line : Conf → Option Bytes → Part → Con → Result (Con × Option Bytes)
close_line conf last (in_key key) con = ok (con, last)
close_line conf last (in_value key value) con = do
  con' ← end_line conf key value con
  ok (con', some key)
close_line conf last (in_folding value) con = do con' ← folded last value con; ok (con', last)

-- The byte behind the text is a zero: a key with a control character, or a value with one.
unfoldable pub at_end : Part → Con → Con
at_end (in_key key) con = reject_all 400 con
at_end (in_value key value) con = reject 400 con
at_end (in_folding value) con = reject 400 con

-- The loop; it gives the text behind the headers. At the end of a line one byte more is read, the line
-- feed, which `skip` stands for.
unfoldable pub header_loop : Conf → Bool → Option Bytes → Part → Con → Bytes → Result (Con × Bytes)
header_loop conf skip last part con [] = stop (at_end part con)
header_loop conf true last part con (c ∷ s) = header_loop conf false last part con s
header_loop conf false last part con (c ∷ s) = elim (move part c s) [
  | go part' ↦ header_loop conf false last part' con s
  | line_end ↦ close_line conf last part con >>= λ r. header_loop conf true r.1 (in_key []) r.0 s
  | header_end ↦ ok (con, drop 1 s)
  | refuse ↦ stop (reject 400 con)
  | refuse_all ↦ stop (reject_all 400 con)
]
