-- ===== src/HttpChunk.antt =====
-- src/http_chunk.c: what a response body puts into the write queue, in chunks of the chunked
-- transfer encoding or as it is. `chunked` is the flag of the response's transfer encoding.
pub mod Framing
use lighttpd_autothumb.Base.{
  ℕ, zero, suc, ◌+◌, ◌-◌, ◌/◌, ◌%◌, ◌^◌, Bool, ◌&&◌, Option, some, [], ◌∷◌, ◌++◌, ltb, leb, ◌==◌,
  if◌then◌else◌, length, Bytes,
}
use lighttpd_autothumb.ChunkQueue.{
  Queue, used, append_buffer as queue_append_buffer, append_mem as queue_append_mem,
  append_file as queue_append_file,
}

abbrev pub crlf : Bytes
crlf = b'\r' ∷ b'\n' ∷ []

-- `(len & 0xf) + (((len & 0xf) <= 9) ? '0' : 'a' - 10)`.
unfoldable pub chunk_digit : ℕ → ℕ
chunk_digit len = len % 16 + (if leb (len % 16) 9 then b'0' else b'a' - 10)

-- `for (i = 0; i < 8 && len; i++) len >>= 4;` with the rounds left.
unfoldable pub digit_count : ℕ → ℕ → ℕ
digit_count zero len = 0
digit_count (suc rounds) len =
    let rest = digit_count rounds (len / 16) in if len == 0 then 0 else suc rest

-- The loop over `j`, from the last digit to the first.
unfoldable pub chunk_digits : ℕ → ℕ → Bytes
chunk_digits zero len = []
chunk_digits (suc j) len = chunk_digits j (len / 16) ++ chunk_digit len ∷ []

-- The text in `tmp_chunk_len`.
unfoldable pub chunk_len : ℕ → Bytes
chunk_len len = (if len == 0 then b'0' ∷ [] else chunk_digits (digit_count 8 len) len) ++ crlf

unfoldable pub append_len : Queue → ℕ → Queue
append_len cq len = queue_append_buffer cq (some (chunk_len len))

-- `chunkqueue_append_mem(cq, "\r\n", 2 + 1)`.
unfoldable pub append_crlf : Queue → Queue
append_crlf cq = queue_append_mem cq (crlf ++ 0 ∷ []) (length crlf + 1)

-- `len > 0` on the pattern of an `off_t`.
unfoldable pub is_positive : ℕ → Bool
is_positive len = ltb 0 len && ltb len (2 ^ 63)

unfoldable pub http_append_file : Bool → Queue → Option Bytes → ℕ → ℕ → Queue
http_append_file chunked cq fn offset len =
    let cq' = queue_append_file (if chunked then append_len cq len else cq) fn offset len in
    if chunked && is_positive len then append_crlf cq' else cq'

-- The length of a buffer with nothing in use wraps.
unfoldable pub http_append_buffer : Bool → Queue → Option Bytes → Queue
http_append_buffer chunked cq mem =
    let cq' =
      queue_append_buffer (if chunked then append_len cq ((used mem + 2 ^ 64 - 1) % 2 ^ 64) else cq)
        mem in
    if chunked && ltb 0 (used mem) then append_crlf cq' else cq'

abbrev pub last_chunk : Bytes
last_chunk = b'0' ∷ (crlf ++ crlf)

-- `len` counts a closing zero behind the bytes of `mem`; no bytes at all is the end of the body.
unfoldable pub http_append_mem : Bool → Queue → Bytes → ℕ → Queue
http_append_mem chunked cq mem len =
    if len == 0
    then (if chunked
        then queue_append_mem cq (last_chunk ++ 0 ∷ []) (length last_chunk + 1)
        else queue_append_mem cq (0 ∷ []) 1)
    else (let cq' = queue_append_mem (if chunked then append_len cq (len - 1) else cq) mem len in
        if chunked then append_crlf cq' else cq')
