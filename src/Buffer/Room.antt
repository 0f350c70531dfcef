-- ===== src/Buffer/Room.antt =====
-- Room behind a text, and what a buffer holds after a text and a zero are written there.
use lighttpd_autothumb.Base.{
  ℕ, ◌+◌, ◌-◌, ◌%◌, ◌≤◌, ◌<◌, ◌≡◌, refl, sym, ap, ◌∙◌, ◌≢◌, some, [], ◌∷◌, ◌++◌, append_assoc,
  arith, length, length-append, drop, length-drop, Bytes,
}
use lighttpd_autothumb.Buffer.Memory.{write_at}
use lighttpd_autothumb.Buffer.Prepare.{
  Holds, Represents, unused, holds, Holds-size, prepare_append-room, prepare_append-Holds,
}
use lighttpd_autothumb.Buffer.{Buffer, size_mod, write, prepare_append, started}

-- Where the next text goes, after `prepare_append` and `if (b->used == 0) b->used++`.
pub record HasRoom (b : Buffer) (text : Bytes) (n : ℕ) : Type 0 where
  pub rest : Bytes
  pub ptr_is : b.ptr ≡ text ++ rest
  pub used_is : b.used ≡ length text + 1
  pub region : length b.ptr ≡ b.size
  pub room : n ≤ length rest

started-unused : (b : Buffer) → b.used ≡ 0 → started b ≡ record b { used = 1 }
unfolding started
started-unused b e = ground arith

started-used : (b : Buffer) → b.used ≢ 0 → started b ≡ b
unfolding started
started-used b e = ground arith

module _ (junk : ℕ → ℕ) where
  pub started-HasRoom :
      (b : Buffer) (text : Bytes) (n : ℕ)
      → Represents b text
      → b.size + n + 64 < size_mod
      → 0 < n
      → HasRoom (started (prepare_append junk b n)) text n
  started-HasRoom b text n (unused u t r) h pos =
      let room = prepare_append-room junk b n (record { region = r; within = omega arith }) h in
      rw (started-unused (prepare_append junk b n) (room.2 ∙ u)) (record {
        rest = (prepare_append junk b n).ptr;
        ptr_is = rw t;
        used_is = rw t;
        region = room.0;
        room = omega (arith, room, u);
      })
  started-HasRoom b text n (holds t) h pos =
      let room =
        prepare_append-room junk b n
          (record { region = t.region; within = omega (arith, Holds-size text t) }) h in
      let t' = prepare_append-Holds junk b n text t h in
      rw (started-used (prepare_append junk b n) (omega (arith, t'.used_is))) (record {
        rest = 0 ∷ t'.rest;
        ptr_is = t'.ptr_is;
        used_is = t'.used_is;
        region = t'.region;
        room = omega (arith, Holds-size text t', room, t'.used_is);
      })

-- A text and its zero written where there is room for them.
module _ (g : Buffer) (text s : Bytes) (r : HasRoom g text (length s + 1)) where
  pub left : Bytes
  left = drop (length s) r.rest

  left_pos : 1 ≤ length left
  unfolding left
  left_pos = omega (arith, length-drop (length s) r.rest, r.room)

  pub first_write : write g.ptr (g.used - 1) s ≡ some ((text ++ s) ++ left)
  unfolding left
  first_write =
      write_at text r.rest s g.ptr (g.used - 1) r.ptr_is (omega (arith, r.used_is))
        (omega (arith, r.room))
      ∙ ap some (sym (append_assoc text s (drop (length s) r.rest)))

  unfoldable pub final : Buffer
  final = record g { ptr = (text ++ s) ++ (0 ∷ drop 1 left); used = g.used + length s }

  -- The zero behind the text, at a place given by a number.
  pub final_write :
      (i : ℕ)
      → i ≡ length (text ++ s)
      → write ((text ++ s) ++ left) i (0 ∷ []) ≡ some ((text ++ s) ++ (0 ∷ drop 1 left))
  final_write i e = write_at (text ++ s) left (0 ∷ []) _ i refl e left_pos

  length-final : length ((text ++ s) ++ (0 ∷ drop 1 left)) ≡ g.size
  unfolding left
  length-final = omega (
    arith,
    length-append (text ++ s) (0 ∷ drop 1 left),
    length-append text s,
    length-drop 1 left,
    left_pos,
    length-drop (length s) r.rest,
    r.room,
    r.region,
    ap length r.ptr_is,
    length-append text r.rest,
  )

  pub final-Holds : Holds final (text ++ s)
  unfolding final
  final-Holds = record {
    rest = drop 1 left;
    ptr_is = refl;
    used_is = omega (arith, r.used_is, length-append text s);
    region = length-final;
  }

  pub place : g.used + length s - 1 ≡ length (text ++ s)
  place = omega (arith, r.used_is, length-append text s)

pub modulo : (n : ℕ) → n < size_mod → n % size_mod ≡ n
modulo n h = omega arith

-- A text with its zero written at once.
module _ (g : Buffer) (text s : Bytes) (r : HasRoom g text (length s + 1)) where
  abbrev pub closed : Bytes
  closed = s ++ 0 ∷ []

  length-closed : length closed ≡ length s + 1
  length-closed = length-append s (0 ∷ [])

  abbrev pub closed_ptr : Bytes
  closed_ptr = text ++ (closed ++ drop (length closed) r.rest)

  pub closed-write : write g.ptr (g.used - 1) closed ≡ some closed_ptr
  closed-write =
      write_at text r.rest closed g.ptr (g.used - 1) r.ptr_is (omega (arith, r.used_is))
        (omega (arith, length-closed, r.room))

  unfoldable pub closed_buffer : Buffer
  closed_buffer = record g { ptr = closed_ptr; used = g.used + length s }

  pub closed_buffer-Holds : Holds closed_buffer (text ++ s)
  unfolding closed_buffer
  closed_buffer-Holds = record {
    rest = drop (length closed) r.rest;
    ptr_is = simp append_assoc;
    used_is = omega (arith, r.used_is, length-append text s);
    region = omega (
      arith,
      length-append text (closed ++ drop (length closed) r.rest),
      length-append closed (drop (length closed) r.rest),
      length-drop (length closed) r.rest,
      length-closed,
      r.room,
      r.region,
      ap length r.ptr_is,
      length-append text r.rest,
    );
  }
