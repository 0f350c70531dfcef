-- ===== src/Buffer/Prepare.antt =====
-- What a buffer holds, and that `buffer_prepare_copy` and `buffer_prepare_append` make room.
use lighttpd_autothumb.Base.{
  ℕ, ◌+◌, ◌-◌, ◌%◌, ◌≤◌, ◌<◌, ◌≡◌, ap, ◌∙◌, ◌≢◌, inl, inr, [], ◌∷◌, ◌++◌, append-nil, append_assoc,
  arith, ltb, Bool-cases, length, length-append, Bytes,
}
use lighttpd_autothumb.Buffer.Memory.{length-junk_from, realloc_grow, round_up_bounds}
use lighttpd_autothumb.Buffer.{
  Buffer, size_mod, junk_from, realloc, round_up, prepare_copy, prepare_append,
}

-- The region has `size` bytes, of which `used` are in use.
pub record IsAllocated (b : Buffer) : Type 0 where
  pub region : length b.ptr ≡ b.size
  pub within : b.used ≤ b.size

-- The bytes in use are the text and a zero.
pub record Holds (b : Buffer) (text : Bytes) : Type 0 where
  pub rest : Bytes
  pub ptr_is : b.ptr ≡ text ++ 0 ∷ rest
  pub used_is : b.used ≡ length text + 1
  pub region : length b.ptr ≡ b.size

-- A buffer with nothing in use stands for the empty text too.
pub data Represents (b : Buffer) (text : Bytes) : Type 0 where
  unused : b.used ≡ 0 → text ≡ [] → length b.ptr ≡ b.size → Represents b text
  holds : Holds b text → Represents b text

pub Holds-size :
    {b : Buffer} (text : Bytes) (h : Holds b text) → b.size ≡ length text + 1 + length h.rest
Holds-size text h = omega (arith, h.region, ap length h.ptr_is, length-append text (0 ∷ h.rest))

module _ (junk : ℕ → ℕ) (b : Buffer) (n : ℕ) where
  pub prepare_copy-room :
      length b.ptr ≡ b.size
      → n + 64 < size_mod
      → (length (prepare_copy junk b n).ptr ≡ (prepare_copy junk b n).size)
        × (n ≤ (prepare_copy junk b n).size)
        × ((prepare_copy junk b n).used ≡ 0)
  unfolding prepare_copy
  prepare_copy-room r h =
      ground (arith, r, length-junk_from junk 0 (round_up n), round_up_bounds n h)

  new_size : ℕ
  new_size = round_up ((b.size + n) % size_mod)

  new_size_bounds :
      b.size + n + 64 < size_mod → (b.size + n < new_size) × (new_size ≤ b.size + n + 64)
  unfolding new_size
  new_size_bounds h =
      let e : (b.size + n) % size_mod ≡ b.size + n = omega arith in
      rw e (round_up_bounds (b.size + n) h)

  grown :
      b.size + n + 64 < size_mod
      → length b.ptr ≡ b.size
      → realloc junk b.ptr new_size ≡ b.ptr ++ junk_from junk b.size (new_size - b.size)
  grown h r =
      realloc_grow junk b.ptr new_size (omega (arith, r, new_size_bounds h))
      ∙ ap (λ k. b.ptr ++ junk_from junk k (new_size - k)) r

  pub prepare_append-room :
      IsAllocated b
      → b.size + n + 64 < size_mod
      → (length (prepare_append junk b n).ptr ≡ (prepare_append junk b n).size)
        × ((prepare_append junk b n).used + n ≤ (prepare_append junk b n).size)
        × ((prepare_append junk b n).used ≡ b.used)
  unfolding prepare_append new_size
  prepare_append-room a h = ground (
    arith,
    length-junk_from junk 0 (round_up n),
    round_up_bounds n (omega arith),
    new_size_bounds h,
    grown h a.region,
    length-append b.ptr (junk_from junk b.size (new_size - b.size)),
    length-junk_from junk b.size (new_size - b.size),
  )

  prepare_append-ptr :
      b.size ≢ 0
      → length b.ptr ≡ b.size
      → b.size + n + 64 < size_mod
      → (extra : Bytes) × ((prepare_append junk b n).ptr ≡ b.ptr ++ extra)
  unfolding prepare_append new_size
  prepare_append-ptr z r h = elim (Bool-cases (ltb b.size ((b.used + n) % size_mod))) [
    | inl more ↦ (junk_from junk b.size (new_size - b.size), ground (arith, grown h r))
    | inr fits ↦ ([], ground (arith, append-nil b.ptr))
  ]

  pub prepare_append-Holds :
      (text : Bytes)
      → Holds b text
      → b.size + n + 64 < size_mod
      → Holds (prepare_append junk b n) text
  prepare_append-Holds text t h =
      let fits = Holds-size text t in
      let room = prepare_append-room (record { region = t.region; within = omega arith }) h in
      let (extra, e) = prepare_append-ptr (omega arith) t.region h in
      record {
        rest = t.rest ++ extra;
        ptr_is = e ∙ ap (λ p. p ++ extra) t.ptr_is ∙ append_assoc text (0 ∷ t.rest) extra;
        used_is = room.2 ∙ t.used_is;
        region = room.0;
      }
