-- ===== src/Connection/Header/Found.antt =====
-- The search over the chunks finds what a search in the whole text would find.
use lighttpd_autothumb.Connection.Header.{
  Match, differs, found, wants, match_chunk, behind, match_chunks, match_from, search_chunk, search,
  copy_header, take_header,
}
use lighttpd_autothumb.Base.{
  ℕ, ◌+◌, ◌≡◌, refl, sym, ap, ◌∙◌, ◌≢◌, inl, inr, true, Option, none, some, List, [], ◌∷◌, ◌++◌,
  append-nil, append_assoc, ◌==◌, if◌then◌else◌, Bool-cases, Option-cases, length, length-append,
  take, drop, Bytes,
}

abbrev pub concat : List Bytes → Bytes
concat [] = []
concat (c ∷ cs) = c ++ concat cs

abbrev pub in_front : Bytes → Option (Bytes × Bytes) → Option (Bytes × Bytes)
in_front pre none = none
in_front pre (some (h, r)) = some (pre ++ h, r)

-- The word at the front of a text, and the text behind it.
unfoldable pub split_front : Bytes → Bytes → Option (Bytes × Bytes)
split_front [] t = some ([], t)
split_front (w ∷ ws) [] = none
split_front (w ∷ ws) (c ∷ t) =
    let rest = split_front ws t in if c == w then in_front (c ∷ []) rest else none

-- The text up to the first empty line, that included, and the text behind it.
unfoldable pub split_header : Bytes → Option (Bytes × Bytes)
split_header [] = none
split_header (c ∷ t) = elim (split_front (b'\r' ∷ b'\n' ∷ b'\r' ∷ b'\n' ∷ []) (c ∷ t)) [
  | some p ↦ some p
  | none ↦ in_front (c ∷ []) (split_header t)
]

-- What is cut off at a place of the queue.
abbrev cut : List Bytes → Option (ℕ × ℕ) → Option (Bytes × Bytes)
cut chunks none = none
cut chunks (some (k, offset)) =
    let (request, rest) = copy_header k offset chunks in some (request, concat rest)

cut-behind :
    (c : Bytes) (cs : List Bytes) (p : Option (ℕ × ℕ))
    → cut (c ∷ cs) (behind p) ≡ in_front c (cut cs p)
unfolding behind copy_header
cut-behind c cs none = refl
cut-behind c cs (some (k, offset)) = refl

in_front-in_front :
    (s t : Bytes) (p : Option (Bytes × Bytes)) → in_front s (in_front t p) ≡ in_front (s ++ t) p
in_front-in_front s t none = refl
in_front-in_front s t (some (h, r)) = ap (λ x. some (x, r)) (sym (append_assoc s t h))

in_front-nil : (p : Option (Bytes × Bytes)) → in_front [] p ≡ p
in_front-nil none = refl
in_front-nil (some (h, r)) = refl

-- What the match in a chunk says, if the text behind the chunk is `t`.
abbrev Says : Match → Bytes → Bytes → Bytes → Bytes → Type 0
Says differs pre s t w = split_front w (s ++ t) ≡ none
Says (found o) pre s t w =
    in_front pre (split_front w (s ++ t)) ≡ some (take o (pre ++ s), drop o (pre ++ s) ++ t)
Says (wants w') pre s t w =
    (w' ≢ []) × (in_front pre (split_front w (s ++ t)) ≡ in_front (pre ++ s) (split_front w' t))

take-front : (pre s : Bytes) → take (length pre) (pre ++ s) ≡ pre
take-front [] [] = refl
take-front [] (c ∷ s) = refl
take-front (c ∷ pre) s = ap (λ t. c ∷ t) (take-front pre s)

drop-front : (pre s : Bytes) → drop (length pre) (pre ++ s) ≡ s
drop-front [] [] = refl
drop-front [] (c ∷ s) = refl
drop-front (c ∷ pre) s = drop-front pre s

Says-more :
    (m : Match) (w c : ℕ) (ws pre s t : Bytes)
    → (c == w) ≡ true
    → Says m (pre ++ c ∷ []) s t ws
    → Says m pre (c ∷ s) t (w ∷ ws)
unfolding split_front
Says-more differs w c ws pre s t e h = rw (e, h, split_front) refl
Says-more (found o) w c ws pre s t e h =
    rw
      (
        e,
        split_front,
        in_front-in_front pre (c ∷ []) (split_front ws (s ++ t)),
        h,
        append_assoc pre (c ∷ []) s,
      )
      refl
Says-more (wants w') w c ws pre s t e (ne, h) = (
  ne,
  rw
      (
        e,
        split_front,
        in_front-in_front pre (c ∷ []) (split_front ws (s ++ t)),
        h,
        append_assoc pre (c ∷ []) s,
      )
      refl,
)

match_chunk-Says : (w pre s t : Bytes) → Says (match_chunk w (length pre) s) pre s t w
unfolding match_chunk split_front
match_chunk-Says [] pre s t = rw (append-nil pre, take-front pre s, drop-front pre s) refl
match_chunk-Says (w ∷ ws) pre [] t = ((λ e. cc e), rw (append-nil pre) refl)
match_chunk-Says (w ∷ ws) pre (c ∷ s) t =
    let more = match_chunk-Says ws (pre ++ c ∷ []) s t in
    elim (Bool-cases (c == w)) [
      | inr f ↦ rw f (rw (f, split_front) refl)
      | inl e ↦ rw e (Says-more _ w c ws pre s t e (rw (length-append pre (c ∷ [])) at more))
    ]

-- What a match in a chunk leads to, when the chunks behind it are matched.
abbrev went_on : List Bytes → Match → Option (ℕ × ℕ)
went_on cs differs = none
went_on cs (found offset) = some (0, offset)
went_on cs (wants w') = behind (match_chunks w' cs)

match_cut :
    (m : Match) (w pre s : Bytes) (cs : List Bytes)
    → Says m pre s (concat cs) w
    → ((v : Bytes) → v ≢ [] → cut cs (match_chunks v cs) ≡ split_front v (concat cs))
    → cut ((pre ++ s) ∷ cs) (went_on cs m) ≡ in_front pre (split_front w (s ++ concat cs))
unfolding copy_header
match_cut differs w pre s cs h ih = rw h refl
match_cut (found o) w pre s cs h ih = sym h
match_cut (wants w') w pre s cs (ne, h) ih =
    cut-behind (pre ++ s) cs (match_chunks w' cs) ∙ (ap (in_front (pre ++ s)) (ih w' ne) ∙ sym h)

match_chunks-cut :
    (w : Bytes) (cs : List Bytes) → w ≢ [] → cut cs (match_chunks w cs) ≡ split_front w (concat cs)
unfolding match_chunks split_front
match_chunks-cut [] cs ne = absurd (ne refl)
match_chunks-cut (w ∷ ws) [] ne = refl
match_chunks-cut (w ∷ ws) (c ∷ cs) ne =
    steps (match_chunk (w ∷ ws) 0 c)
    ∙ (match_cut (match_chunk (w ∷ ws) 0 c) (w ∷ ws) [] c cs
          (match_chunk-Says (w ∷ ws) [] c (concat cs)) (λ v. match_chunks-cut v cs)
        ∙ in_front-nil (split_front (w ∷ ws) (c ++ concat cs)))
  where
    steps :
        (m : Match)
        → cut (c ∷ cs) (elim m [
          | differs ↦ none
          | found offset ↦ some (0, offset)
          | wants w' ↦ behind (match_chunks w' cs)
        ])
          ≡ cut (c ∷ cs) (went_on cs m)
    steps differs = refl
    steps (found o) = refl
    steps (wants w') = refl

match_from-cut :
    (w pre s : Bytes) (cs : List Bytes)
    → cut ((pre ++ s) ∷ cs) (match_from w (length pre) s cs)
      ≡ in_front pre (split_front w (s ++ concat cs))
unfolding match_from
match_from-cut w pre s cs =
    steps (match_chunk w (length pre) s)
    ∙ match_cut (match_chunk w (length pre) s) w pre s cs (match_chunk-Says w pre s (concat cs))
        (λ v. match_chunks-cut v cs)
  where
    steps :
        (m : Match)
        → cut ((pre ++ s) ∷ cs) (elim m [
          | differs ↦ none
          | found offset ↦ some (0, offset)
          | wants w' ↦ behind (match_chunks w' cs)
        ])
          ≡ cut ((pre ++ s) ∷ cs) (went_on cs m)
    steps differs = refl
    steps (found o) = refl
    steps (wants w') = refl

-- The search of the whole chunk, and of those behind it.
abbrev search_on : Option (ℕ × ℕ) → List Bytes → Option (ℕ × ℕ)
search_on none cs = behind (search cs)
search_on (some p) cs = some p

return_first :
    (c : ℕ) (t : Bytes)
    → split_header (c ∷ t) ≡ (
        if c == b'\r'
        then elim (split_front (b'\n' ∷ b'\r' ∷ b'\n' ∷ []) t) [
          | none ↦ in_front (c ∷ []) (split_header t)
          | some p ↦ in_front (c ∷ []) (some p)
        ]
        else in_front (c ∷ []) (split_header t))
unfolding split_header split_front
return_first c t = elim (Bool-cases (c == b'\r')) [
  | inr f ↦ rw (f, split_header, split_front) refl
  | inl e ↦ elim (Option-cases (split_front (b'\n' ∷ b'\r' ∷ b'\n' ∷ []) t)) [
    | inl n ↦ rw (e, n, split_header, split_front) refl
    | inr (p, is) ↦ rw (e, is, split_header, split_front) refl
  ]
]

abbrev rest_of_end : Bytes
rest_of_end = b'\n' ∷ b'\r' ∷ b'\n' ∷ []

search_chunk-cut :
    (pre s : Bytes) (cs : List Bytes)
    → cut cs (search cs) ≡ split_header (concat cs)
    → cut ((pre ++ s) ∷ cs) (search_on (search_chunk (length pre) s cs) cs)
      ≡ in_front pre (split_header (s ++ concat cs))
unfolding search_chunk
search_chunk-cut pre [] cs h =
    cut-behind (pre ++ []) cs (search cs) ∙ rw (append-nil pre) (ap (in_front pre) h)
search_chunk-cut pre (c ∷ s) cs h =
    let x = s ++ concat cs in
    let ih = search_chunk-cut (pre ++ c ∷ []) s cs h in
    let from = match_from-cut rest_of_end (pre ++ c ∷ []) s cs in
    let more : cut ((pre ++ c ∷ s) ∷ cs) (search_on (search_chunk (length pre + 1) s cs) cs)
        ≡ in_front pre (in_front (c ∷ []) (split_header x)) =
      rw (in_front-in_front pre (c ∷ []) (split_header x))
        (rw (append_assoc pre (c ∷ []) s, length-append pre (c ∷ [])) at ih) in
    let match : cut ((pre ++ c ∷ s) ∷ cs) (match_from rest_of_end (length pre + 1) s cs)
        ≡ in_front pre (in_front (c ∷ []) (split_front rest_of_end x)) =
      rw (in_front-in_front pre (c ∷ []) (split_front rest_of_end x))
        (rw (append_assoc pre (c ∷ []) s, length-append pre (c ∷ [])) at from) in
    elim (Bool-cases (c == b'\r')) [
      | inr f ↦ rw (return_first c x, f, search_chunk) more
      | inl e ↦ elim (Option-cases (match_from rest_of_end (length pre + 1) s cs)) [
        | inl n ↦ elim (Option-cases (split_front rest_of_end x)) [
          | inl n' ↦ rw (return_first c x, e, n, n', search_chunk) more
          | inr (q, is) ↦ absurd (cc (rw (n, is) at match))
        ]
        | inr (p, to) ↦ elim (Option-cases (split_front rest_of_end x)) [
          | inl n' ↦ absurd (cc (rw (to, n') at match))
          | inr (q, is) ↦ rw (return_first c x, e, to, is, search_chunk) (rw (to, is) at match)
        ]
      ]
    ]

search-cut : (cs : List Bytes) → cut cs (search cs) ≡ split_header (concat cs)
unfolding search split_header
search-cut [] = refl
search-cut (c ∷ cs) =
    steps (search_chunk 0 c cs)
    ∙ (search_chunk-cut [] c cs (search-cut cs) ∙ in_front-nil (split_header (c ++ concat cs)))
  where
    steps :
        (p : Option (ℕ × ℕ))
        → cut (c ∷ cs) (elim p [ none ↦ behind (search cs) | some q ↦ some q ])
          ≡ cut (c ∷ cs) (search_on p cs)
    steps none = refl
    steps (some q) = refl

-- A request that is taken off, and the text that is left.
abbrev pub text_of : Option (Bytes × List Bytes) → Option (Bytes × Bytes)
text_of none = none
text_of (some (request, rest)) = some (request, concat rest)

-- The request that is taken off the read queue, and the text that is left in it, are what the search
-- for the first empty line in the whole text gives, however the text is cut into chunks; and none is
-- taken exactly if the text has no empty line.
pub take_header-split_header :
    (chunks : List Bytes) → text_of (take_header chunks) ≡ split_header (concat chunks)
unfolding take_header
take_header-split_header chunks = steps (search chunks) ∙ search-cut chunks
  where
    steps :
        (p : Option (ℕ × ℕ))
        → text_of (elim p [ none ↦ none | some (k, offset) ↦ some (copy_header k offset chunks) ])
          ≡ cut chunks p
    steps none = refl
    steps (some (k, offset)) = refl
