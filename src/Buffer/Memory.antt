-- ===== src/Buffer/Memory.antt =====
-- Writes and reallocations on a region that is split where they begin.
use lighttpd_autothumb.Base.{
  ℕ, zero, suc, ◌+◌, ◌-◌, ◌≤◌, ◌<◌, ◌≡◌, refl, ap, true, some, List, [], ◌∷◌, ◌++◌, arith, leb,
  length, length-append, take, drop, Bytes,
}
use lighttpd_autothumb.Buffer.{junk_from, realloc, write, round_up, size_mod}

pub take-length_append {ℓ} : {A : Type ℓ} (a w : List A) → take (length a) (a ++ w) ≡ a
take-length_append [] w = refl
take-length_append (x ∷ a) w = ap (◌∷◌ x) (take-length_append a w)

drop-add_append {ℓ} : {A : Type ℓ} (a w : List A) (n : ℕ) → drop (length a + n) (a ++ w) ≡ drop n w
drop-add_append [] w n = let e : 0 + n ≡ n = omega arith in rw e
drop-add_append (x ∷ a) w n =
    let e : suc (length a) + n ≡ suc (length a + n) = omega arith in rw e (drop-add_append a w n)

-- A write of a text that fits replaces as many bytes.
pub write-append :
    (a w s : Bytes)
    → length s ≤ length w
    → write (a ++ w) (length a) s ≡ some (a ++ (s ++ drop (length s) w))
unfolding write
write-append a w s h =
    let fits : leb (length a + length s) (length (a ++ w)) ≡ true =
      ground (arith, length-append a w, h) in
    rw (fits, take-length_append a w, drop-add_append a w (length s))

-- A write at the end of `a` where the place is given by a number.
pub write_at :
    (a w s p : Bytes) (i : ℕ)
    → p ≡ a ++ w
    → i ≡ length a
    → length s ≤ length w
    → write p i s ≡ some (a ++ (s ++ drop (length s) w))
write_at a w s p i e f h = rw (e, f) (write-append a w s h)

pub length-junk_from : (junk : ℕ → ℕ) (i n : ℕ) → length (junk_from junk i n) ≡ n
unfolding junk_from
length-junk_from junk i zero = refl
length-junk_from junk i (suc n) = ap suc (length-junk_from junk (i + 1) n)

take-of_le {ℓ} : {A : Type ℓ} (n : ℕ) (p : List A) → length p ≤ n → take n p ≡ p
take-of_le zero [] h = refl
take-of_le zero (x ∷ p) h = absurd (omega arith)
take-of_le (suc n) [] h = refl
take-of_le (suc n) (x ∷ p) h = ap (◌∷◌ x) (take-of_le n p (omega arith))

-- A region that grows keeps its bytes.
pub realloc_grow :
    (junk : ℕ → ℕ) (p : Bytes) (n : ℕ)
    → length p ≤ n
    → realloc junk p n ≡ p ++ junk_from junk (length p) (n - length p)
unfolding realloc
realloc_grow junk p n h = rw (take-of_le n p h)

pub round_up_bounds : (n : ℕ) → n + 64 < size_mod → (n < round_up n) × (round_up n ≤ n + 64)
unfolding round_up
round_up_bounds n h = omega arith
