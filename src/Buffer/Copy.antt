-- ===== src/Buffer/Copy.antt =====
-- The calls that copy into a buffer, `buffer_reset`, `buffer_append_string_buffer` and the comparison.
use lighttpd_autothumb.Base.{
  ℕ, ◌+◌, ◌-◌, ◌%◌, ◌≤◌, ◌<◌, ◌≡◌, refl, ap, ◌≢◌, ◌↔◌, inl, inr, true, false, some, [], ◌∷◌, ◌++◌,
  append-nil, arith, ltb, ◌==◌, Bool-cases, length, length-append, take, drop, length-drop, Bytes,
  equal_iff, All,
}
use lighttpd_autothumb.UrlDecode.{c_string}
use lighttpd_autothumb.Buffer.Memory.{write_at, take-length_append}
use lighttpd_autothumb.Buffer.Prepare.{Holds, Represents, unused, holds, prepare_copy-room}
use lighttpd_autothumb.Buffer.Append.{append_string_len-Holds}
use lighttpd_autothumb.Buffer.{
  Buffer, size_mod, write, ◌>>=◌, prepare_copy, reset, max_reuse_size, copy_string_len,
  copy_string_buffer, append_string_buffer, append_string_len, is_equal,
}

module _ (junk : ℕ → ℕ) where
  -- Copying a text of known length writes inside the region only, and the buffer then holds that
  -- text and a zero, whatever it held: an empty text too.
  pub copy_string_len-Holds :
      (b : Buffer) (s : Bytes)
      → length b.ptr ≡ b.size
      → length s + 65 < size_mod
      → (b' : Buffer) × (copy_string_len junk b s ≡ some b') × Holds b' s
  unfolding copy_string_len
  copy_string_len-Holds b s r h =
      let g = prepare_copy junk b (length s + 1) in
      let room = prepare_copy-room junk b (length s + 1) r (omega arith) in
      let m : (length s + 1) % size_mod ≡ length s + 1 = omega arith in
      let w1 : write g.ptr 0 s ≡ some (s ++ drop (length s) g.ptr) =
        write_at [] g.ptr s g.ptr 0 refl refl (omega (arith, room)) in
      let w2 : write (s ++ drop (length s) g.ptr) (length s) (0 ∷ [])
          ≡ some (s ++ 0 ∷ drop 1 (drop (length s) g.ptr)) =
        write_at s (drop (length s) g.ptr) (0 ∷ []) _ (length s) refl refl
          (omega (arith, room, length-drop (length s) g.ptr)) in
      (
        record g { ptr = s ++ 0 ∷ drop 1 (drop (length s) g.ptr); used = length s + 1 },
        rw m (rw (w1, ◌>>=◌) (rw (w2, ◌>>=◌))),
        record {
          rest = drop 1 (drop (length s) g.ptr);
          ptr_is = refl;
          used_is = refl;
          region = omega (
            arith,
            room,
            length-append s (0 ∷ drop 1 (drop (length s) g.ptr)),
            length-drop 1 (drop (length s) g.ptr),
            length-drop (length s) g.ptr,
          );
        },
      )

-- After a reset nothing is in use, and a large region is given back.
pub reset-Represents :
    (b : Buffer)
    → length b.ptr ≡ b.size
    → (b' : Buffer) × (reset b ≡ some b')
      × Represents b' []
      × (b'.used ≡ 0)
      × (b'.size ≤ max_reuse_size)
unfolding reset
reset-Represents b r = elim (Bool-cases (ltb max_reuse_size b.size)) [
  | inl big ↦
      (record { ptr = []; used = 0; size = 0 }, rw big, unused refl refl refl, refl, omega arith)
  | inr small ↦ elim (Bool-cases (b.size == 0)) [
    | inl z ↦ (record b { used = 0 }, rw (small, z), unused refl refl r, refl, ground arith)
    | inr some_bytes ↦
        let w : write b.ptr 0 (0 ∷ []) ≡ some (0 ∷ drop 1 b.ptr) =
          write_at [] b.ptr (0 ∷ []) b.ptr 0 refl refl (ground (arith, r)) in
        (
          record b { ptr = 0 ∷ drop 1 b.ptr; used = 0 },
          rw (small, some_bytes) (rw (w, ◌>>=◌)),
          unused refl refl (ground (arith, length-drop 1 b.ptr, r)),
          refl,
          ground arith,
        )
  ]
]

text_of : (src : Buffer) (text : Bytes) → Holds src text → take (src.used - 1) src.ptr ≡ text
text_of src text t =
    let e : src.used - 1 ≡ length text = omega (arith, t.used_is) in
    rw (e, t.ptr_is) (take-length_append text (0 ∷ t.rest))

module _ (junk : ℕ → ℕ) where
  -- Copying a buffer: the destination represents the text of the source.
  pub copy_string_buffer-Represents :
      (b src : Buffer) (text : Bytes)
      → length b.ptr ≡ b.size
      → Represents src text
      → length text + 65 < size_mod
      → (b' : Buffer) × (copy_string_buffer junk b src ≡ some b') × Represents b' text
  unfolding copy_string_buffer
  copy_string_buffer-Represents b src text r (unused u t _) h =
      let (b', e, rep, _, _) = reset-Represents b r in (b', rw u e, rw t rep)
  copy_string_buffer-Represents b src text r (holds t) h =
      let used : (src.used == 0) ≡ false = ground (arith, t.used_is) in
      let (b', e, rep) = copy_string_len-Holds junk b text r h in
      (b', rw (used, text_of src text t) e, holds rep)

  -- Appending a buffer: the destination represents both texts.
  pub append_string_buffer-Represents :
      (b src : Buffer) (text more : Bytes)
      → Represents b text
      → Represents src more
      → b.size + length more + 65 < size_mod
      → (b' : Buffer) × (append_string_buffer junk b src ≡ some b') × Represents b' (text ++ more)
  unfolding append_string_buffer append_string_len
  append_string_buffer-Represents b src text more rep (unused u t _) h =
      (b, rw u, rw (t, append-nil text) rep)
  append_string_buffer-Represents b src text [] rep (holds t) h =
      let used : (src.used == 0) ≡ false = ground (arith, t.used_is) in
      (b, rw (used, text_of src [] t), rw (append-nil text) rep)
  append_string_buffer-Represents b src text (c ∷ more) rep (holds t) h =
      let used : (src.used == 0) ≡ false = ground (arith, t.used_is) in
      let (b', e, rep') = append_string_len-Holds junk b text (c ∷ more) rep h (λ q. cc) in
      (b', rw (used, text_of src (c ∷ more) t) e, holds rep')

abbrev pub NoZero : Bytes → Type 0
NoZero = All (λ c. c ≢ 0)

pub c_string-append : (s rest : Bytes) → NoZero s → c_string (s ++ 0 ∷ rest) ≡ s
unfolding c_string
c_string-append [] rest n = refl
c_string-append (c ∷ s) rest n = ground (arith, c_string-append s rest n.1, n.0)

-- Two buffers that hold texts without zeros compare equal exactly when the texts are equal.
pub is_equal_iff :
    (a b : Buffer) (s t : Bytes)
    → Holds a s
    → Holds b t
    → NoZero s
    → NoZero t
    → (is_equal a b ≡ true) ↔ (s ≡ t)
unfolding is_equal
is_equal_iff a b s t ha hb ns nt =
    let ca : c_string a.ptr ≡ s = rw (ha.ptr_is) (c_string-append s ha.rest ns) in
    let cb : c_string b.ptr ≡ t = rw (hb.ptr_is) (c_string-append t hb.rest nt) in
    rw (ca, cb)
      (
        (λ e. ground (arith, equal_iff s t, ha.used_is, e)),
        (λ e. ground (arith, equal_iff s t, ap length e, ha.used_is, hb.used_is)),
      )
