-- ===== src/HttpChunk/Framing.antt =====
-- What the calls put on the wire.
use lighttpd_autothumb.Base.{
  ℕ, zero, suc, ◌+◌, ◌-◌, ◌*◌, ◌/◌, ◌%◌, ◌^◌, ◌<◌, ◌≡◌, refl, ap, ◌∙◌, ◌⊎◌, inl, inr, true, false,
  none, some, [], ◌∷◌, ◌++◌, append_assoc, arith, leb, ◌==◌, if◌then◌else◌, Bool-cases, length,
  Bytes,
}
use native.Mathlib.Nat.{pow-suc}
use lighttpd_autothumb.ChunkQueue.{Queue, append_mem, append_buffer}
use lighttpd_autothumb.ChunkQueue.Content.{bytes, content, append-content}
use lighttpd_autothumb.HttpChunk.{
  crlf, chunk_digit, digit_count, chunk_digits, chunk_len, append_len, append_crlf, http_append_mem,
  last_chunk,
}

-- The value of one hex digit and of a run of them.
abbrev pub hex_value : ℕ → ℕ
hex_value c = if leb c b'9' then c - b'0' else c + 10 - b'a'

abbrev pub read_hex : ℕ → Bytes → ℕ
read_hex acc [] = acc
read_hex acc (c ∷ s) = read_hex (acc * 16 + hex_value c) s

chunk_digit-value : (len : ℕ) → hex_value (chunk_digit len) ≡ len % 16
unfolding chunk_digit
chunk_digit-value len = ground arith

read_hex-append :
    (acc : ℕ) (s : Bytes) (c : ℕ) → read_hex acc (s ++ c ∷ []) ≡ read_hex acc s * 16 + hex_value c
read_hex-append acc [] c = refl
read_hex-append acc (d ∷ s) c = read_hex-append (acc * 16 + hex_value d) s c

-- The digits stand for a remainder: the rest of the number is a multiple of the power.
chunk_digits-value :
    (n len : ℕ)
    → (q : ℕ) × (len ≡ q * 16 ^ n + read_hex 0 (chunk_digits n len))
      × (read_hex 0 (chunk_digits n len) < 16 ^ n)
unfolding chunk_digits
chunk_digits-value zero len = (len, omega arith, omega arith)
chunk_digits-value (suc n) len =
    let (q, e, h) = chunk_digits-value n (len / 16) in
    let r : read_hex 0 (chunk_digits n (len / 16) ++ chunk_digit len ∷ [])
        ≡ read_hex 0 (chunk_digits n (len / 16)) * 16 + len % 16 =
      read_hex-append 0 (chunk_digits n (len / 16)) (chunk_digit len)
      ∙ ap (λ d. read_hex 0 (chunk_digits n (len / 16)) * 16 + d) (chunk_digit-value len) in
    (
      q,
      omega (arith, r, e, ap (λ (t : ℕ). q * t) (pow-suc 16 n)),
      omega (arith, r, h, pow-suc 16 n),
    )

pow_pos : (n : ℕ) → 0 < 16 ^ n
pow_pos zero = omega arith
pow_pos (suc n) = omega (arith, pow_pos n, pow-suc 16 n)

-- Either there is a digit for each round, or the digits are enough.
digit_count_enough :
    (rounds len : ℕ)
    → (digit_count rounds len ≡ rounds)
      ⊎ ((len < 16 ^ digit_count rounds len) × (len < 16 ^ rounds))
unfolding digit_count
digit_count_enough zero len = inl refl
digit_count_enough (suc rounds) len = elim (Bool-cases (len == 0)) [
  | inl z ↦ rw z (inr (ground arith, ground (arith, pow_pos (suc rounds))))
  | inr n ↦ rw n (elim (digit_count_enough rounds (len / 16)) [
    | inl all ↦ inl (ap suc all)
    | inr (fits, small) ↦ inr (
      omega (arith, fits, pow-suc 16 (digit_count rounds (len / 16))),
      omega (arith, small, pow-suc 16 rounds),
    )
  ])
]

remainder_whole : (q p r len : ℕ) → len ≡ q * p + r → len < p → r ≡ len
remainder_whole zero p r len e h = omega (arith, e)
remainder_whole (suc q) p r len e h = absurd (omega (arith, e))

all_digits :
    (len : ℕ)
    → digit_count 8 len ≡ 8
    → read_hex 0 (chunk_digits (digit_count 8 len) len) ≡ len % 2 ^ 32
all_digits len all = let (q, e, h) = chunk_digits-value 8 len in rw all (omega (arith, e, h))

-- The length in front of a chunk, read as a hex number, is the length modulo 2 ^ 32: the loop stops
-- after eight digits.
pub chunk_digits-mod : (len : ℕ) → read_hex 0 (chunk_digits (digit_count 8 len) len) ≡ len % 2 ^ 32
chunk_digits-mod len = elim (digit_count_enough 8 len) [
  | inl all ↦ all_digits len all
  | inr (fits, small) ↦
      let (q, e, h) = chunk_digits-value (digit_count 8 len) len in
      remainder_whole q (16 ^ digit_count 8 len) _ len e fits ∙ omega (arith, small)
]

text_append :
    (cq : Queue) (text : Bytes)
    → content (append_mem cq (text ++ 0 ∷ []) (length text + 1)) ≡ content cq ++ bytes text ∷ []
text_append cq text = (append-content cq text none 0 1 (omega arith)).2

buffer_append :
    (cq : Queue) (text : Bytes)
    → content (append_buffer cq (some text)) ≡ content cq ++ bytes text ∷ []
buffer_append cq text = (append-content cq text none 0 1 (omega arith)).0

-- In a chunked body a text goes out as its length, the text and a line end, and the empty text as
-- the last chunk; in a plain body it goes out as it is.
pub http_append_mem-content :
    (cq : Queue) (text : Bytes)
    → (content (http_append_mem true cq (text ++ 0 ∷ []) (length text + 1))
        ≡ content cq ++ bytes (chunk_len (length text)) ∷ bytes text ∷ bytes crlf ∷ [])
      × (content (http_append_mem false cq (text ++ 0 ∷ []) (length text + 1))
          ≡ content cq ++ bytes text ∷ [])
      × (content (http_append_mem true cq text 0) ≡ content cq ++ bytes last_chunk ∷ [])
unfolding http_append_mem append_len append_crlf
http_append_mem-content cq text =
    let some_bytes : (length text + 1 == 0) ≡ false = ground arith in
    let n : length text + 1 - 1 ≡ length text = omega arith in
    (
      rw (some_bytes, n) (simp (text_append, buffer_append, append_assoc)),
      rw some_bytes (text_append cq text),
      text_append cq last_chunk,
    )
