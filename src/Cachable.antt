-- ===== src/Cachable.antt =====
-- src/etag.c, and `http_response_handle_cachable` of src/http-header-glue.c: whether a conditional
-- request is answered without the body. Dates are read by `strptime` and `mktime`, which come in as
-- `time_of`, with none where `strptime` refuses the text; `file_time` is what they give for the date
-- of the file.
pub mod NotModified
use Prim.Native.Nat.{bit_xor}
use lighttpd_autothumb.Number.{ℤ, pos, ltostr}
use lighttpd_autothumb.Base.{
  ℕ, ◌-◌, ◌*◌, ◌/◌, ◌%◌, ◌^◌, Bool, false, ◌||◌, Option, none, some, [], ◌∷◌, ◌++◌, ltb, leb, ◌==◌,
  if◌then◌else◌, length, take, Bytes, codes, equal,
}

-- `etag_is_equal`; a buffer with nothing in use, and none at all, is `none`.
unfoldable pub etag_is_equal : Option Bytes → Bytes → Bool
etag_is_equal none matches = false
etag_is_equal (some etag) matches = equal etag matches

-- The three flags, and the fields of `struct stat` that they stand for.
pub record EtagFlags : Type 0 where
  pub use_inode : Bool
  pub use_size : Bool
  pub use_mtime : Bool

-- `etag_create`; without a flag it leaves the text as it is.
unfoldable pub etag_create : EtagFlags → ℕ → ℕ → ℤ → Option Bytes → Option Bytes
etag_create flags ino size mtime etag =
    if flags.use_inode || (flags.use_size || flags.use_mtime)
    then some (
        (if flags.use_inode then ltostr (pos ino) ++ codes "-" else [])
        ++ ((if flags.use_size then ltostr (pos size) ++ codes "-" else [])
            ++ (if flags.use_mtime then ltostr mtime else [])))
    else etag

-- The loop of `etag_mutate`, on bytes below 128.
unfoldable pub etag_hash : ℕ → Bytes → ℕ
etag_hash h [] = h
etag_hash h (c ∷ s) = etag_hash (bit_xor (bit_xor (h * 2 ^ 5 % 2 ^ 32) (h / 2 ^ 27)) c) s

unfoldable pub etag_mutate : Bytes → Bytes
etag_mutate etag = codes "\"" ++ (ltostr (pos (etag_hash 0 etag)) ++ codes "\"")

-- The text in front of the first semicolon: its length is `used_len`.
unfoldable pub before_semicolon : Bytes → Bytes
before_semicolon [] = []
before_semicolon (c ∷ s) = let rest = before_semicolon s in if c == b';' then [] else c ∷ rest

-- `HANDLER_GO_ON`, or `HANDLER_FINISHED` with the status that is set. With a status of 412 the mode is
-- set to DIRECT as well, which it is already where the handlers of files call this.
pub data Answer : Type 0 where
  goes_on : Answer
  answered : Option ℕ → Answer

pub record Request : Type 0 where
  pub http_method : ℕ
  pub if_none_match : Option Bytes
  pub if_modified_since : Option Bytes

abbrev pub method_get : ℕ
method_get = 0

abbrev pub method_head : ℕ
method_head = 2

-- `sizeof("Sat, 23 Jul 2005 21:20:01 GMT")`.
abbrev pub date_size : ℕ
date_size = 30

-- What both branches do where the text is the beginning of `mtime`.
abbrev pub same_date : Bytes → Bytes → Answer
same_date text mtime = answered (if length text == length mtime then some 304 else none)

abbrev pub compare_times : ℕ → ℕ → Answer
compare_times file_time header_time =
    if ltb header_time file_time then goes_on else answered (some 304)

-- With an entity tag that matches, a date that cannot be read is an error; without one it is ignored.
unfoldable pub compare_dates : Answer → (Bytes → Option ℕ) → ℕ → Bytes → Bytes → Answer
compare_dates unreadable time_of file_time mtime text =
    if equal (take (length text) mtime) text
    then same_date text mtime
    else if leb date_size (length text)
    then unreadable
    else elim (time_of text) [
      | none ↦ unreadable
      | some header_time ↦ compare_times file_time header_time
    ]

unfoldable pub with_etag : (Bytes → Option ℕ) → ℕ → Bytes → Request → Answer
with_etag time_of file_time mtime request =
    if request.http_method == method_get || request.http_method == method_head
    then elim request.if_modified_since [
      | some date ↦
          compare_dates (answered (some 412)) time_of file_time mtime (before_semicolon date)
      | none ↦ answered (some 304)
    ]
    else answered (some 412)

unfoldable pub handle_cachable : (Bytes → Option ℕ) → ℕ → Option Bytes → Bytes → Request → Answer
handle_cachable time_of file_time etag mtime request = elim request.if_none_match [
  | some matches ↦
      if etag_is_equal etag matches then with_etag time_of file_time mtime request else goes_on
  | none ↦ elim request.if_modified_since [
    | some date ↦ compare_dates goes_on time_of file_time mtime (before_semicolon date)
    | none ↦ goes_on
  ]
]
