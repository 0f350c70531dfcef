-- ===== src/Range/Queued.antt =====
-- What the loop over the parts puts into the queue.
use lighttpd_autothumb.Number.{pos, negsuc}
use lighttpd_autothumb.CString.{strchr, ◌+ℤ◌, ◌-ℤ◌, pattern_of}
use lighttpd_autothumb.ChunkQueue.{off_mod}
use lighttpd_autothumb.ChunkQueue.Content.{
  Piece, bytes, span, content, content_length, append-content,
}
use lighttpd_autothumb.Range.{
  Part, part, refused, Progress, part_header, queue_text, queue_file, queue_part, LoopEnd, all_read,
  failed, after_part, part_loop,
}
use lighttpd_autothumb.Range.Bounds.{InFile, Read, parse_part-InFile, parse_part-Read}
use lighttpd_autothumb.Base.{
  ℕ, zero, suc, ◌+◌, ◌-◌, ◌%◌, ◌^◌, ◌≤◌, ◌<◌, ◌≡◌, refl, sym, ◌∙◌, ◌≢◌, ◌⊎◌, inl, inr, Bool, true,
  false, Option, none, some, List, [], ◌∷◌, ◌++◌, append_assoc, arith, Option-cases, length, Bytes,
  All, All-both,
}

-- The first and the last byte of a part, and that they lie in the file.
abbrev pub Span : Type 0
Span = ℕ × ℕ

abbrev pub Inside : ℕ → Span → Type 0
Inside size (a, b) = (a ≤ b) × (b < size)

-- The parts of a multipart body, each behind its header.
unfoldable pub part_pieces : Bytes → Option Bytes → ℕ → List Span → List Piece
part_pieces path ct size [] = []
part_pieces path ct size ((a, b) ∷ spans) =
    bytes (part_header ct size (pos a) (pos b))
    ∷ span (some path) a (b + 1 - a)
    ∷ part_pieces path ct size spans

part_pieces-append :
    (path : Bytes) (ct : Option Bytes) (size : ℕ) (xs ys : List Span)
    → part_pieces path ct size (xs ++ ys)
      ≡ part_pieces path ct size xs ++ part_pieces path ct size ys
unfolding part_pieces
part_pieces-append path ct size [] ys = refl
part_pieces-append path ct size ((a, b) ∷ xs) ys = rw (part_pieces-append path ct size xs ys)

pub content_length-append :
    (ps qs : List Piece) → content_length (ps ++ qs) ≡ content_length ps + content_length qs
content_length-append [] qs = omega arith
content_length-append (p ∷ ps) qs = omega (arith, content_length-append ps qs)

not_empty : (s minus : Bytes) → strchr b'-' s ≡ some minus → s ≢ []
unfolding strchr
not_empty [] minus h e = cc h
not_empty (c ∷ s) minus h e = cc e

-- The queue holds `old` and then `ps`, and the length of the response counts `ps`.
abbrev pub Holds : List Piece → List Piece → Progress → Type 0
Holds old ps p = (content p.queue ≡ old ++ ps) × (p.content_length ≡ content_length ps % off_mod)

pub queue_text-Holds :
    (old ps : List Piece) (text : Bytes) (p : Progress)
    → Holds old ps p
    → Holds old (ps ++ bytes text ∷ []) (queue_text text p)
unfolding queue_text
queue_text-Holds old ps text p h = (
  (append-content p.queue text none 0 1 (λ e. cc e)).0 ∙ rw (h.0, append_assoc) refl,
  omega (arith, h.1, content_length-append ps (bytes text ∷ [])),
)

queue_file-Holds :
    (old ps : List Piece) (path : Bytes) (a len : ℕ) (p : Progress)
    → Holds old ps p
    → len ≢ 0
    → pattern_of p.start ≡ a
    → Holds old (ps ++ span (some path) a len ∷ []) (queue_file path len p)
unfolding queue_file
queue_file-Holds old ps path a len p h ne e = (
  rw e ((append-content p.queue [] (some path) a len ne).3 ∙ rw (h.0, append_assoc) refl),
  omega (arith, h.1, content_length-append ps (span (some path) a len ∷ [])),
)

span_length : (a b : ℕ) → a ≤ b → b < 2 ^ 63 → pattern_of (pos b -ℤ pos a +ℤ pos 1) ≡ b + 1 - a
unfolding pattern_of ◌-ℤ◌ ◌+ℤ◌
span_length a b h k = ground arith

pattern_pos : (a : ℕ) → a < 2 ^ 63 → pattern_of (pos a) ≡ a
unfolding pattern_of
pattern_pos a h = omega arith

module _ (path : Bytes) (ct : Option Bytes) (size : ℕ) (fits : size ≤ 2 ^ 63) where
  abbrev pub spanned : ℕ → ℕ → Piece
  spanned a b = span (some path) a (b + 1 - a)

  -- The round that queues the part from `a` to `b`.
  abbrev queued : Progress → ℕ → ℕ → Bool → Progress
  queued p a b m = queue_part path ct size (record p { start = pos a; end = pos b; multipart = m })

  queued-one :
      (old ps : List Piece) (a b : ℕ) (p : Progress)
      → Inside size (a, b)
      → Holds old ps p
      → Holds old (ps ++ spanned a b ∷ []) (queued p a b false)
  unfolding queue_part
  queued-one old ps a b p i h = rw (span_length a b i.0 (omega (arith, i.1))) (
      queue_file-Holds old ps path a (b + 1 - a)
        (record p { start = pos a; end = pos b; multipart = false }) h (omega (arith, i.0))
        (pattern_pos a (omega (arith, i.0, i.1))))

  queued-several :
      (old ps : List Piece) (a b : ℕ) (p : Progress)
      → Inside size (a, b)
      → Holds old ps p
      → Holds old
          ((ps ++ bytes (part_header ct size (pos a) (pos b)) ∷ []) ++ spanned a b ∷ [])
          (queued p a b true)
  unfolding queue_part queue_text
  queued-several old ps a b p i h =
      let header = part_header ct size (pos a) (pos b) in
      let p' : Progress = record p { start = pos a; end = pos b; multipart = true } in
      rw (span_length a b i.0 (omega (arith, i.1))) (
        queue_file-Holds old _ path a (b + 1 - a) (queue_text header p')
          (queue_text-Holds old ps header p' h) (omega (arith, i.0))
          (pattern_pos a (omega (arith, i.0, i.1))))

-- The three stages of the loop over `range`: nothing is read yet; or one part is, to the end of the
-- text; or several are, each behind its header.
module _ (path : Bytes) (ct : Option Bytes) (size : ℕ) (range : Bytes) (old : List Piece) where
  abbrev pub Fresh : Bytes → Progress → Type 0
  Fresh s p = Holds old [] p × (p.multipart ≡ false) × (s ≡ range)

  abbrev pub One : Bytes → Progress → Type 0
  One s p =
      (a : ℕ) × (b : ℕ) × Inside size (a, b)
      × Holds old (span (some path) a (b + 1 - a) ∷ []) p
      × (p.multipart ≡ false)
      × (p.start ≡ pos a)
      × (p.end ≡ pos b)
      × (s ≡ [])

  abbrev pub Parts : Progress → Type 0
  Parts p =
      (spans : List Span) × All (Inside size) spans × Holds old (part_pieces path ct size spans) p

  abbrev pub Several : Progress → Type 0
  Several p = Parts p × (p.multipart ≡ true)

  abbrev pub Looped : Bytes → Progress → Type 0
  Looped s p = Fresh s p ⊎ (One s p ⊎ Several p)

  abbrev pub Ended : Option LoopEnd → Type 0
  Ended none = ⊥
  Ended (some (all_read p)) = (s : Bytes) × Looped s p × (strchr b'-' s ≡ none)
  Ended (some (failed p)) = Parts p

  pub Fresh-Looped : (p : Progress) → Fresh range p → Looped range p
  Fresh-Looped p f = inl f

  Looped-Parts :
      (s minus : Bytes) (p : Progress) → strchr b'-' s ≡ some minus → Looped s p → Parts p
  unfolding strchr part_pieces
  Looped-Parts s minus p h (inl f) = ([], tt, f.0)
  Looped-Parts s minus p h (inr (inl o)) = absurd (not_empty s minus h o.7)
  Looped-Parts s minus p h (inr (inr q)) = q.0

  module _ (fits : size ≤ 2 ^ 63) where
    -- One more part behind its header.
    more-Parts :
        (a b : ℕ) (p : Progress)
        → Inside size (a, b)
        → Parts p
        → Parts (queued path ct size fits p a b true)
    unfolding part_pieces
    more-Parts a b p i (spans, al, h) = (
      spans ++ (a, b) ∷ [],
      All-both (Inside size) spans ((a, b) ∷ []) al (i, tt),
      rw (regrouped spans)
          (queued-several path ct size fits old (part_pieces path ct size spans) a b p i h),
    )
      where
        regrouped :
            (spans : List Span)
            → part_pieces path ct size (spans ++ (a, b) ∷ [])
              ≡ (part_pieces path ct size spans ++ bytes (part_header ct size (pos a) (pos b)) ∷ [])
                ++ span (some path) a (b + 1 - a) ∷ []
        regrouped spans =
            part_pieces-append path ct size spans ((a, b) ∷ [])
            ∙ sym (append_assoc (part_pieces path ct size spans) _ _)

    round-Looped :
        (s minus s' : Bytes) (a b : ℕ) (m : Bool) (p : Progress)
        → strchr b'-' s ≡ some minus
        → Inside size (a, b)
        → (m ≡ true) ⊎ ((m ≡ p.multipart) × (s' ≡ []))
        → Looped s p
        → Looped s' (queued path ct size fits p a b m)
    unfolding queue_part queue_file queue_text
    round-Looped s minus s' a b true p h i o l =
        inr (inr (more-Parts a b p i (Looped-Parts s minus p h l), refl))
    round-Looped s minus s' a b false p h i o (inl f) = inr (
        inl (
          a,
          b,
          i,
          queued-one path ct size fits old [] a b p i f.0,
          refl,
          refl,
          refl,
          elim o [ inl e ↦ cc | inr e ↦ e.1 ],
        ))
    round-Looped s minus s' a b false p h i o (inr (inl f)) = absurd (not_empty s minus h f.7)
    round-Looped s minus s' a b false p h i o (inr (inr f)) = elim o [
      | inl e ↦ cc
      | inr e ↦ cc (e.0, f.1)
    ]

    after-Ended :
        (rest : Bytes → Progress → Option LoopEnd) (s minus : Bytes) (p : Progress) (q : Part)
        → strchr b'-' s ≡ some minus
        → InFile size q
        → Read (length s) p.multipart q
        → Looped s p
        → ((t : Bytes) (r : Progress) → length t < length s → Looped t r → Ended (rest t r))
        → Ended (after_part rest path ct size p q)
    unfolding after_part
    after-Ended rest s minus p (refused none) h i r l go_on = Looped-Parts s minus p h l
    after-Ended rest s minus p (refused (some status)) h i r l go_on = Looped-Parts s minus p h l
    after-Ended rest s minus p (part s' (pos x) (pos y) m) h i r l go_on =
        go_on s' _ r.0 (round-Looped s minus s' x y m p h (ground (arith, i)) r.1 l)
    after-Ended rest s minus p (part s' (pos x) (negsuc y) m) h i r l go_on = cc (i.3)
    after-Ended rest s minus p (part s' (negsuc x) end m) h i r l go_on = cc (i.2)

    pub part_loop-Ended :
        (rounds : ℕ) (s : Bytes) (p : Progress)
        → length s < rounds
        → Looped s p
        → Ended (part_loop rounds path ct size s p)
    unfolding part_loop
    part_loop-Ended zero s p h l = elim h [ ]
    part_loop-Ended (suc rounds) s p h l = elim (Option-cases (strchr b'-' s)) [
      | inl e ↦ rw (e, part_loop) (s, l, e)
      | inr (minus, e) ↦
          rw (e, part_loop)
            (after-Ended (part_loop rounds path ct size) s minus p _ e
              (parse_part-InFile size s minus p.multipart e)
              (parse_part-Read size s minus p.multipart e) l
              (λ t r lt k. part_loop-Ended rounds t r (omega arith) k))
    ]
