-- ===== src/Range/Bounds.antt =====
-- Each part that is let through is a span inside the file, and the text of the range gets shorter.
use lighttpd_autothumb.Number.{ℤ, pos, negsuc, pos_part}
use lighttpd_autothumb.CString.{strchr, strtoll, sub_ℕ, lt_ℤ, ◌+ℤ◌}
use lighttpd_autothumb.CString.Numbers.{length-strchr, length-strtoll, strtoll-IsPos, IsPos}
use lighttpd_autothumb.Range.{
  Part, part, refused, part_at, is_zero, clip_start, clip_end, parse_suffix, parse_from, parse_both,
  ends_part, parse_part, clip,
}
use lighttpd_autothumb.Base.{
  ℕ, zero, suc, ◌-◌, ◌≤◌, ◌<◌, ◌≡◌, refl, sym, ap, ◌∙◌, ◌⊎◌, inl, inr, Bool, true, false, Option,
  none, some, [], ◌∷◌, arith, ltb, ◌==◌, if◌then◌else◌, ==_iff, length, drop, Bytes, if_cases,
}

-- The span ends at the last byte of the file, or it does not end before it starts.
abbrev Ordered : ℕ → Part → Type 0
Ordered size (refused status) = Unit
Ordered size (part s start end m) = (end ≡ sub_ℕ size 1) ⊎ (IsPos start × (lt_ℤ end start ≡ false))

-- The span lies inside the file.
abbrev pub InFile : ℕ → Part → Type 0
InFile size (refused status) = Unit
InFile size (part s start end m) =
    (a : ℕ) × (b : ℕ) × (start ≡ pos a) × (end ≡ pos b) × (a ≤ b) × (b < size)

-- The text to go on with is shorter than `n`, and it is the end of the text unless there are several
-- parts.
abbrev pub Read : ℕ → Bool → Part → Type 0
Read n m (refused status) = Unit
Read n m (part s start end m') = (length s < n) × ((m' ≡ true) ⊎ ((m' ≡ m) × (s ≡ [])))

clip_start-pos : (z : ℤ) → (a : ℕ) × (clip_start z ≡ pos a)
unfolding clip_start
clip_start-pos (pos a) = (a, ground arith)
clip_start-pos (negsuc a) = (0, ground arith)

clip_start-IsPos : (z : ℤ) → IsPos z → clip_start z ≡ z
unfolding clip_start
clip_start-IsPos (pos a) h = ground arith
clip_start-IsPos (negsuc a) h = absurd h

last_pos :
    (size : ℕ) (a : ℕ)
    → lt_ℤ (sub_ℕ size 1) (pos a) ≡ false
    → (a < size) × (sub_ℕ size 1 ≡ pos (size - 1))
last_pos zero a h = ground arith
last_pos (suc size) a h = ground arith

-- What `clip` lets through.
clipped :
    (size a : ℕ) (s : Bytes) (end : ℤ) (m : Bool)
    → (end ≡ sub_ℕ size 1) ⊎ (lt_ℤ end (pos a) ≡ false)
    → lt_ℤ (sub_ℕ size 1) (pos a) ≡ false
    → InFile size (part s (pos a) (clip_end (sub_ℕ size 1) end) m)
unfolding clip_end
clipped size a s (pos e) m o h =
    let l = last_pos size a h in
    let ordered : (e ≡ size - 1) ⊎ (a ≤ e) = elim o [
      | inl q ↦ inl (ap pos_part (q ∙ l.1))
      | inr q ↦ inr (ground (arith, q))
    ] in
    rw l.1 (
      a,
      (if ltb (size - 1) e then size - 1 else e),
      refl,
      ground arith,
      ground (arith, l.0, ordered),
      ground (arith, l.0),
    )
clipped size a s (negsuc e) m o h =
    let l = last_pos size a h in elim o [ inl q ↦ cc (q, l.1) | inr q ↦ absurd (ground (arith, q)) ]

clip-InFile : (size : ℕ) (p : Part) → Ordered size p → InFile size (clip size p)
unfolding clip
clip-InFile size (refused status) o = tt
clip-InFile size (part s start end m) o =
    let c = clip_start-pos start in
    let o' : (end ≡ sub_ℕ size 1) ⊎ (lt_ℤ end (pos c.0) ≡ false) = elim o [
      | inl q ↦ inl q
      | inr q ↦ inr (ap (lt_ℤ end) (sym c.1 ∙ clip_start-IsPos start q.0) ∙ q.1)
    ] in
    if_cases (InFile size) (lt_ℤ (sub_ℕ size 1) (clip_start start)) (refused (some 416))
      (part s (clip_start start) (clip_end (sub_ℕ size 1) end) m) (λ t. tt)
      (λ f. rw c.1 (clipped size c.0 s end m o' (ap (lt_ℤ (sub_ℕ size 1)) (sym c.1) ∙ f)))

at-last :
    (size : ℕ) (err : Bytes) (start : ℤ) (m : Bool)
    → Ordered size (part_at err start (sub_ℕ size 1) m)
unfolding part_at
at-last size [] start m = inl refl
at-last size (c ∷ s) start m =
    if_cases (Ordered size) (c == b',') (part s start (sub_ℕ size 1) true) (refused none)
      (λ t. inl refl) (λ f. tt)

at-Ordered :
    (size : ℕ) (err : Bytes) (start end : ℤ) (m : Bool)
    → IsPos start
    → lt_ℤ end start ≡ false
    → Ordered size (part_at err start end m)
unfolding part_at
at-Ordered size [] start end m p h = inr (p, h)
at-Ordered size (c ∷ s) start end m p h =
    if_cases (Ordered size) (c == b',') (part s start end true) (refused none) (λ t. inr (p, h))
      (λ f. tt)

-- A property of the part that is parsed, from those of the three forms.
parse_part-cases :
    (P : Part → Type 0) (size : ℕ) (s minus : Bytes) (m : Bool)
    → ((status : Option ℕ) → P (refused status))
    → ((start : ℤ) → P (part_at (strtoll s).1 start (sub_ℕ size 1) m))
    → ((start : ℤ) → P (part_at (drop 1 (strtoll s).1) start (sub_ℕ size 1) m))
    → (length (strtoll s).1 ≡ length minus
        → lt_ℤ (strtoll (drop 1 minus)).0 (strtoll s).0 ≡ false
        → P (part_at (strtoll (drop 1 minus)).1 (strtoll s).0 (strtoll (drop 1 minus)).0 m))
    → P (parse_part size s minus m)
unfolding parse_part parse_suffix parse_from parse_both
parse_part-cases P size s minus m no_part suffix from both =
    if_cases P (length s == length minus) _ _
      (λ t.
        if_cases P (is_zero (strtoll s).0) (refused (some 416)) _ (λ u. no_part (some 416))
          (λ u. suffix (pos size +ℤ (strtoll s).0)))
      (λ f.
        if_cases P (ends_part (drop 1 minus)) _ _
          (λ t.
            if_cases P (length (strtoll s).1 == length minus) _ (refused none)
              (λ u. from (strtoll s).0) (λ u. no_part none))
          (λ t.
            if_cases P (length (strtoll s).1 == length minus) _ (refused none)
              (λ u.
                if_cases P (lt_ℤ (strtoll (drop 1 minus)).0 (strtoll s).0) (refused none) _
                  (λ v. no_part none)
                  (λ v. both ((==_iff (length (strtoll s).1) (length minus)).0 u) v))
              (λ u. no_part none)))

-- What goes into the queue lies inside the file, whatever the range is.
pub parse_part-InFile :
    (size : ℕ) (s minus : Bytes) (m : Bool)
    → strchr b'-' s ≡ some minus
    → InFile size (clip size (parse_part size s minus m))
parse_part-InFile size s minus m h = clip-InFile size (parse_part size s minus m) (
    parse_part-cases (Ordered size) size s minus m (λ u. tt)
      (λ start. at-last size (strtoll s).1 start m)
      (λ start. at-last size (drop 1 (strtoll s).1) start m)
      (λ e f.
        at-Ordered size (strtoll (drop 1 minus)).1 (strtoll s).0 (strtoll (drop 1 minus)).0 m
          (strtoll-IsPos s minus h (omega (arith, e))) f))

at-Read :
    (n : ℕ) (err : Bytes) (start end : ℤ) (m : Bool)
    → length err ≤ n
    → 0 < n
    → Read n m (part_at err start end m)
unfolding part_at
at-Read n [] start end m h k = (k, inr (refl, refl))
at-Read n (c ∷ s) start end m h k =
    if_cases (Read n m) (c == b',') (part s start end true) (refused none)
      (λ t. (omega arith, inl refl)) (λ f. tt)

clip-Read : (n size : ℕ) (m : Bool) (p : Part) → Read n m p → Read n m (clip size p)
unfolding clip
clip-Read n size m (refused status) h = tt
clip-Read n size m (part s start end m') h =
    if_cases (Read n m) (lt_ℤ (sub_ℕ size 1) (clip_start start)) (refused (some 416)) _ (λ t. tt)
      (λ f. h)

tail-le : (s : Bytes) → length (drop 1 s) ≤ length s
tail-le [] = omega arith
tail-le (c ∷ s) = omega arith

strchr_pos : (c : ℕ) (s minus : Bytes) → strchr c s ≡ some minus → 0 < length s
unfolding strchr
strchr_pos c [] minus h = cc h
strchr_pos c (d ∷ s) minus h = omega arith

pub parse_part-Read :
    (size : ℕ) (s minus : Bytes) (m : Bool)
    → strchr b'-' s ≡ some minus
    → Read (length s) m (clip size (parse_part size s minus m))
parse_part-Read size s minus m h =
    let n = length s in
    let k = strchr_pos b'-' s minus h in
    let a = length-strtoll s in
    let b = length-strchr b'-' s minus h in
    clip-Read n size m _ (
      parse_part-cases (Read n m) size s minus m (λ u. tt)
        (λ start. at-Read n (strtoll s).1 start (sub_ℕ size 1) m a k)
        (λ start.
          at-Read n (drop 1 (strtoll s).1) start (sub_ℕ size 1) m
            (omega (arith, a, tail-le (strtoll s).1)) k)
        (λ e f.
          at-Read n (strtoll (drop 1 minus)).1 (strtoll s).0 (strtoll (drop 1 minus)).0 m
            (omega (arith, length-strtoll (drop 1 minus), tail-le minus, b)) k))
