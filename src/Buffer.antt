-- ===== src/Buffer.antt =====
-- The growing byte buffer of src/buffer.c and src/buffer.h.
-- `ptr` is the allocated region, all `size` bytes of it, and empty where the pointer is NULL. What
-- an allocation holds before it is written is a parameter, `junk`. A write outside the region is
-- the fault `none`. Sizes wrap at 2 ^ 64. A failed allocation ends the process and is not
-- modelled; pointers to buffers and texts are not NULL, so the returns of -1 for those are left out.
pub mod Memory
pub mod Prepare
pub mod Room
pub mod Copy
pub mod Append
use lighttpd_autothumb.Base.{
  ℕ, zero, suc, ◌+◌, ◌-◌, ◌*◌, ◌%◌, ◌^◌, Bool, true, false, not, ◌||◌, Option, none, some, [], ◌∷◌,
  ◌++◌, ltb, leb, ◌==◌, if◌then◌else◌, length, get_elem?, take, drop, replicate, Bytes, equal,
}
use lighttpd_autothumb.UrlDecode.{c_string, Encoding, encoded_chars, encode, encoded_length}
use lighttpd_autothumb.Number.{ℤ, ltostr, long_hex, string_hex}

pub record Buffer : Type 0 where
  pub ptr : Bytes
  pub used : ℕ
  pub size : ℕ

infixl 5 ◌>>=◌
abbrev pub ◌>>=◌ {ℓ κ} : {A : Type ℓ} {B : Type κ} → Option A → (A → Option B) → Option B
none >>= f = none
some a >>= f = f a

abbrev pub size_mod : ℕ
size_mod = 2 ^ 64

-- The bytes of `junk` from `i` on.
unfoldable pub junk_from : (ℕ → ℕ) → ℕ → ℕ → Bytes
junk_from junk i zero = []
junk_from junk i (suc n) = junk i ∷ junk_from junk (i + 1) n

-- `realloc`: what fits of the old region, and junk behind it.
unfoldable pub realloc : (ℕ → ℕ) → Bytes → ℕ → Bytes
realloc junk p n = take n p ++ junk_from junk (length p) (n - length p)

-- `memcpy(p + i, s, length s)`.
unfoldable pub write : Bytes → ℕ → Bytes → Option Bytes
write p i s =
    if leb (i + length s) (length p) then some (take i p ++ (s ++ drop (i + length s) p)) else none

-- `size += BUFFER_PIECE_SIZE - (size % BUFFER_PIECE_SIZE)`.
unfoldable pub round_up : ℕ → ℕ
round_up n = (n + (64 - n % 64)) % size_mod

unfoldable pub init : Buffer
init = record { ptr = []; used = 0; size = 0 }

-- `BUFFER_MAX_REUSE_SIZE` of src/settings.h.
abbrev pub max_reuse_size : ℕ
max_reuse_size = 4 * 1024

-- `buffer_reset`; the write of a zero to the first byte is that of a non-empty region.
unfoldable pub reset : Buffer → Option Buffer
reset b =
    if ltb max_reuse_size b.size
    then some (record { ptr = []; used = 0; size = 0 })
    else if b.size == 0
    then some (record b { used = 0 })
    else do p ← write b.ptr 0 (0 ∷ []); some (record b { ptr = p; used = 0 })

-- `if (b->used == 0) b->used++;`
unfoldable pub started : Buffer → Buffer
started b = if b.used == 0 then record b { used = 1 } else b

module _ (junk : ℕ → ℕ) where
  unfoldable pub prepare_copy : Buffer → ℕ → Buffer
  prepare_copy b n =
      if b.size == 0 || ltb b.size n
      then record { ptr = junk_from junk 0 (round_up n); used = 0; size = round_up n }
      else record b { used = 0 }

  unfoldable pub prepare_append : Buffer → ℕ → Buffer
  prepare_append b n =
      if b.size == 0
      then record { ptr = junk_from junk 0 (round_up n); used = 0; size = round_up n }
      else if ltb b.size ((b.used + n) % size_mod)
      then (let size' = round_up ((b.size + n) % size_mod) in
          record b { ptr = realloc junk b.ptr size'; size = size' })
      else b

  -- `s` is a text with its closing zero, which the copy includes.
  unfoldable pub copy_string : Buffer → Bytes → Option Buffer
  copy_string b s = do
    let s' = c_string s ++ 0 ∷ []
    let b' = prepare_copy b (length s' % size_mod)
    p ← write b'.ptr 0 s'
    some (record b' { ptr = p; used = length s' })

  unfoldable pub copy_string_len : Buffer → Bytes → Option Buffer
  copy_string_len b s = do
    let b' = prepare_copy b ((length s + 1) % size_mod)
    p ← write b'.ptr 0 s
    q ← write p (length s) (0 ∷ [])
    some (record b' { ptr = q; used = length s + 1 })

  unfoldable pub copy_string_buffer : Buffer → Buffer → Option Buffer
  copy_string_buffer b src =
      if src.used == 0 then reset b else copy_string_len b (take (src.used - 1) src.ptr)

  unfoldable pub append_string : Buffer → Bytes → Option Buffer
  append_string b s = do
    let s' = c_string s
    let b' = started (prepare_append b ((length s' + 1) % size_mod))
    p ← write b'.ptr (b'.used - 1) (s' ++ 0 ∷ [])
    some (record b' { ptr = p; used = b'.used + length s' })

  unfoldable pub append_string_len : Buffer → Bytes → Option Buffer
  append_string_len b [] = some b
  append_string_len b (c ∷ s) = do
    let b' = started (prepare_append b ((length (c ∷ s) + 1) % size_mod))
    p ← write b'.ptr (b'.used - 1) (c ∷ s)
    let used' = b'.used + length (c ∷ s)
    q ← write p (used' - 1) (0 ∷ [])
    some (record b' { ptr = q; used = used' })

  unfoldable pub append_string_buffer : Buffer → Buffer → Option Buffer
  append_string_buffer b src =
      if src.used == 0 then some b else append_string_len b (take (src.used - 1) src.ptr)

  unfoldable pub append_string_rfill : Buffer → Bytes → ℕ → Option Buffer
  append_string_rfill b s maxlen = do
    let s' = take maxlen (c_string s)
    let b' = started (prepare_append b ((maxlen + 1) % size_mod))
    p ← write b'.ptr (b'.used - 1) s'
    q ← write p (b'.used - 1 + length s') (replicate (maxlen - length s') b' ')
    let used' = b'.used + maxlen
    r ← write q (used' - 1) (0 ∷ [])
    some (record b' { ptr = r; used = used' })

  unfoldable pub append_memory : Buffer → Bytes → Option Buffer
  append_memory b [] = some b
  append_memory b (c ∷ s) = do
    let b' = prepare_append b (length (c ∷ s))
    p ← write b'.ptr b'.used (c ∷ s)
    some (record b' { ptr = p; used = b'.used + length (c ∷ s) })

  unfoldable pub copy_memory : Buffer → Bytes → Option Buffer
  copy_memory b s = append_memory (record b { used = 0 }) s

  -- 32 bytes are asked for; `LI_ltostr` writes the text and a zero, and returns the text's length.
  unfoldable pub append_long : Buffer → ℤ → Option Buffer
  append_long b val = do
    let b' = started (prepare_append b 32)
    p ← write b'.ptr (b'.used - 1) (ltostr val ++ 0 ∷ [])
    some (record b' { ptr = p; used = b'.used + length (ltostr val) })

  unfoldable pub copy_long : Buffer → ℤ → Option Buffer
  copy_long b val = append_long (record b { used = 0 }) val

  -- The digits and the zero behind them, written one by one.
  unfoldable pub append_long_hex : Buffer → ℕ → Option Buffer
  append_long_hex b value = do
    let shift = length (long_hex value)
    let b' = started (prepare_append b (shift + 1))
    p ← write b'.ptr (b'.used - 1) (long_hex value ++ 0 ∷ [])
    some (record b' { ptr = p; used = b'.used + shift })

  -- A length whose double wraps is refused; the digits and the zero are written one by one.
  unfoldable pub copy_string_hex : Buffer → Bytes → Option Buffer
  copy_string_hex b s = if ltb (length s * 2 % size_mod) (length s) then some b else do
    let b' = prepare_copy b ((length s * 2 + 1) % size_mod)
    p ← write b'.ptr b'.used (string_hex s ++ 0 ∷ [])
    some (record b' { ptr = p; used = b'.used + length (string_hex s) + 1 })

  -- The counting loop, the room for its result, and the writing loop with the zero behind it.
  unfoldable pub write_encoded : Buffer → Bytes → Encoding → Bytes → Option Buffer
  write_encoded b s e table = do
    let d_len = encoded_length e table s
    let b' = prepare_append b d_len
    p ← write b'.ptr (b'.used - 1) (encode e table s)
    q ← write p (b'.used + d_len - 1) (0 ∷ [])
    some (record b' { ptr = q; used = b'.used + d_len })

  -- `buffer_append_string_encoded`. The first read is in front of the region where nothing is in
  -- use; a byte there that is not zero, and an encoding without a table, end the process.
  unfoldable pub append_string_encoded : Buffer → Bytes → Encoding → Option Buffer
  append_string_encoded b s e = do
    last ← get_elem? b.ptr ((b.used + size_mod - 1) % size_mod)
    if not (last == 0)
        then none
        else if equal s []
        then some b
        else encoded_chars e >>= write_encoded b s e

-- `buffer_is_empty` and `buffer_is_equal`; the texts end at their first zero.
unfoldable pub is_empty : Buffer → Bool
is_empty b = b.used == 0

unfoldable pub is_equal : Buffer → Buffer → Bool
is_equal a b =
    if not (a.used == b.used)
    then false
    else if a.used == 0
    then true
    else equal (c_string a.ptr) (c_string b.ptr)
