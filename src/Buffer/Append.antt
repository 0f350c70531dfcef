-- ===== src/Buffer/Append.antt =====
-- The calls that append to a text: they write inside the region, and what the buffer then holds is
-- the text and what is appended.
use lighttpd_autothumb.Base.{
  ℕ, ◌+◌, ◌-◌, ◌%◌, ◌≤◌, ◌<◌, ◌≡◌, refl, sym, ◌≢◌, some, [], ◌∷◌, ◌++◌, map, append-nil, arith,
  length, get_elem?, Bytes, equal,
}
use lighttpd_autothumb.UrlDecode.{c_string, Encoding, encoded_chars, encode}
use lighttpd_autothumb.UrlDecode.RoundTrip.{length-encode}
use lighttpd_autothumb.Number.{ℤ, ltostr}
use lighttpd_autothumb.Number.Decimal.{length-ltostr}
use lighttpd_autothumb.Buffer.Prepare.{
  IsAllocated, Holds, Represents, Holds-size, prepare_append-room, prepare_append-Holds,
}
use lighttpd_autothumb.Buffer.Room.{
  HasRoom, started-HasRoom, first_write, final, final_write, final-Holds, place, modulo,
  closed-write, closed_buffer, closed_buffer-Holds,
}
use lighttpd_autothumb.Buffer.{
  Buffer, size_mod, ◌>>=◌, prepare_append, started, append_string, append_string_len, append_long,
  write_encoded, append_string_encoded,
}

module _ (junk : ℕ → ℕ) where
  -- Appending a text of known length writes inside the region only, and the buffer then holds both
  -- texts and a zero: for every buffer that represents a text, allocated or not, every text to
  -- append that is not empty, and every content of new memory, while the sizes stay below 2 ^ 64.
  pub append_string_len-Holds :
      (b : Buffer) (text s : Bytes)
      → Represents b text
      → b.size + length s + 65 < size_mod
      → s ≢ []
      → (b' : Buffer) × (append_string_len junk b s ≡ some b') × Holds b' (text ++ s)
  unfolding append_string_len final
  append_string_len-Holds b text [] rep h ne = absurd (ne refl)
  append_string_len-Holds b text (c ∷ s) rep h ne =
      let n = length (c ∷ s) + 1 in
      let g = started (prepare_append junk b n) in
      let r = started-HasRoom junk b text n rep (omega arith) (omega arith) in
      (
        final g text (c ∷ s) r,
        rw (modulo n (omega arith)) (
            rw (first_write g text (c ∷ s) r, ◌>>=◌)
              (rw (final_write g text (c ∷ s) r _ (place g text (c ∷ s) r), ◌>>=◌))),
        final-Holds g text (c ∷ s) r,
      )

  -- The same for a text that ends at its first zero.
  pub append_string-Holds :
      (b : Buffer) (text s : Bytes)
      → Represents b text
      → b.size + length (c_string s) + 65 < size_mod
      → (b' : Buffer) × (append_string junk b s ≡ some b') × Holds b' (text ++ c_string s)
  unfolding append_string closed_buffer
  append_string-Holds b text s rep h =
      let n = length (c_string s) + 1 in
      let g = started (prepare_append junk b n) in
      let r = started-HasRoom junk b text n rep (omega arith) (omega arith) in
      (
        closed_buffer g text (c_string s) r,
        rw (modulo n (omega arith)) (rw (closed-write g text (c_string s) r, ◌>>=◌)),
        closed_buffer-Holds g text (c_string s) r,
      )

  HasRoom-le : {b : Buffer} (text : Bytes) (m n : ℕ) → HasRoom b text n → m ≤ n → HasRoom b text m
  HasRoom-le text m n r h = record {
    rest = r.rest;
    ptr_is = r.ptr_is;
    used_is = r.used_is;
    region = r.region;
    room = omega (arith, r.room);
  }

  -- Appending a number writes its decimal text: the 32 bytes that are asked for are enough.
  pub append_long-Holds :
      (b : Buffer) (text : Bytes) (val : ℤ)
      → Represents b text
      → b.size + 96 < size_mod
      → (b' : Buffer) × (append_long junk b val ≡ some b') × Holds b' (text ++ ltostr val)
  unfolding append_long closed_buffer
  append_long-Holds b text val rep h =
      let g = started (prepare_append junk b 32) in
      let r =
        HasRoom-le text (length (ltostr val) + 1) 32
          (started-HasRoom junk b text 32 rep (omega arith) (omega arith))
          (omega (arith, length-ltostr val)) in
      (
        closed_buffer g text (ltostr val) r,
        rw (closed-write g text (ltostr val) r, ◌>>=◌),
        closed_buffer-Holds g text (ltostr val) r,
      )

  encoded-HasRoom :
      (b : Buffer) (text : Bytes) (n : ℕ)
      → Holds b text
      → b.size + n + 64 < size_mod
      → HasRoom (prepare_append junk b n) text (n + 1)
  encoded-HasRoom b text n t h =
      let a : IsAllocated b = record {
        region = t.region;
        within = omega (arith, t.used_is, Holds-size text t);
      } in
      let room = prepare_append-room junk b n a h in
      let t' = prepare_append-Holds junk b n text t h in
      record {
        rest = 0 ∷ t'.rest;
        ptr_is = t'.ptr_is;
        used_is = t'.used_is;
        region = t'.region;
        room = omega (arith, room, t'.used_is, Holds-size text t');
      }

  write_encoded-Holds :
      (b : Buffer) (text s : Bytes) (e : Encoding) (table : Bytes)
      → Holds b text
      → b.size + length (encode e table s) + 64 < size_mod
      → (b' : Buffer) × (write_encoded junk b s e table ≡ some b')
        × Holds b' (text ++ encode e table s)
  unfolding write_encoded final
  write_encoded-Holds b text s e table t h =
      let d = encode e table s in
      let g = prepare_append junk b (length d) in
      let r = encoded-HasRoom b text (length d) t h in
      (
        final g text d r,
        rw (sym (length-encode e table s)) (
            rw (first_write g text d r, ◌>>=◌)
              (rw (final_write g text d r _ (place g text d r), ◌>>=◌))),
        final-Holds g text d r,
      )

  get_elem?-last :
      (text rest : Bytes) (i : ℕ) → i ≡ length text → get_elem? (text ++ 0 ∷ rest) i ≡ some 0
  get_elem?-last [] rest i e = rw e
  get_elem?-last (c ∷ text) rest i e = rw e (get_elem?-last text rest (length text) refl)

  last_zero :
      (b : Buffer) (text : Bytes)
      → Holds b text
      → b.size < size_mod
      → get_elem? b.ptr ((b.used + size_mod - 1) % size_mod) ≡ some 0
  last_zero b text t h =
      rw (t.ptr_is) (get_elem?-last text t.rest _ (omega (arith, t.used_is, Holds-size text t)))

  -- Appending an encoded text to a buffer that holds a text writes inside the region, although the
  -- room that is asked for does not count the closing zero.
  pub append_string_encoded-Holds :
      (b : Buffer) (text s : Bytes) (e : Encoding) (table : Bytes)
      → Holds b text
      → encoded_chars e ≡ some table
      → b.size + length (encode e table s) + 64 < size_mod
      → (b' : Buffer) × (append_string_encoded junk b s e ≡ some b')
        × Holds b' (text ++ encode e table s)
  unfolding append_string_encoded encode equal
  append_string_encoded-Holds b text [] e table t map h =
      (b, rw (last_zero b text t (omega arith), ◌>>=◌), rw (append-nil text) t)
  append_string_encoded-Holds b text (c ∷ s) e table t map h =
      let (b', w, holds') = write_encoded-Holds b text (c ∷ s) e table t h in
      (b', rw (last_zero b text t (omega arith), ◌>>=◌) (rw (map, ◌>>=◌) w), holds')
