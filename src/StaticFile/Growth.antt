-- ===== src/StaticFile/Growth.antt =====
-- What goes into the queue for a static file.
use lighttpd_autothumb.CString.{strchr}
use lighttpd_autothumb.ChunkQueue.{Queue, append_buffer, append_mem, append_file}
use lighttpd_autothumb.ChunkQueue.Content.{Piece, bytes, span, content, append-content}
use lighttpd_autothumb.HttpChunk.{
  http_append_file, append_len, append_crlf, crlf, chunk_len, is_positive,
}
use lighttpd_autothumb.Range.{
  overwriting, inserting, Outcome, error, set_up, parse_range, last_boundary,
}
use lighttpd_autothumb.Range.Queued.{Span, Inside, part_pieces}
use lighttpd_autothumb.Range.Served.{Served, parse_range-Served}
use lighttpd_autothumb.Uri.{HandlerResult}
use lighttpd_autothumb.StaticFile.{
  Conf, Stat, Con, apply_header, take_outcome, serve_file, text_of, take_range, serve_range,
  serve_for, range_applies,
}
use lighttpd_autothumb.ResponseHeaders.{get_header}
use lighttpd_autothumb.Base.{
  ℕ, ◌+◌, ◌-◌, ◌^◌, ◌≤◌, ◌≡◌, refl, sym, ◌∙◌, ◌≢◌, inl, inr, Bool, true, false, ◌&&◌, Option, none,
  some, List, [], ◌∷◌, ◌++◌, append-nil, append_assoc, arith, ◌==◌, Bool-cases, length, Bytes,
  codes, All, All-both, if_cases,
}

-- A text, or a span inside the file.
abbrev pub FromFile : Bytes → ℕ → Piece → Type 0
FromFile path size (bytes text) = Unit
FromFile path size (span name start len) = (name ≡ some path) × (start + len ≤ size)

-- The pieces `old`, and behind them only texts and spans of the file.
abbrev pub Grown : Bytes → ℕ → List Piece → Queue → Type 0
Grown path size old cq = (ps : List Piece) × (content cq ≡ old ++ ps) × All (FromFile path size) ps

module _ (path : Bytes) (size : ℕ) (old : List Piece) where
  Grown-one :
      (cq cq' : Queue) (p : Piece)
      → content cq' ≡ content cq ++ p ∷ []
      → FromFile path size p
      → Grown path size old cq
      → Grown path size old cq'
  Grown-one cq cq' p e f (ps, q, al) = (
    ps ++ p ∷ [],
    e ∙ rw q (append_assoc old ps (p ∷ [])),
    All-both (FromFile path size) ps (p ∷ []) al (f, tt),
  )

  Grown-text :
      (cq : Queue) (text : Bytes)
      → Grown path size old cq
      → Grown path size old (append_buffer cq (some text))
  Grown-text cq text g =
      Grown-one cq (append_buffer cq (some text)) (bytes text)
        (append-content cq text none 0 1 (λ e. cc e)).0 tt g

  Grown-crlf : (cq : Queue) → Grown path size old cq → Grown path size old (append_crlf cq)
  unfolding append_crlf
  Grown-crlf cq g =
      Grown-one cq (append_mem cq (crlf ++ 0 ∷ []) (length crlf + 1)) (bytes crlf)
        (append-content cq crlf none 0 1 (λ e. cc e)).2 tt g

  Grown-file :
      (cq : Queue)
      → Grown path size old cq
      → Grown path size old (append_file cq (some path) 0 size)
  unfolding append_file
  Grown-file cq g = elim (Bool-cases (size == 0)) [
    | inl z ↦ rw (z, append_file) g
    | inr n ↦
        Grown-one cq (append_file cq (some path) 0 size) (span (some path) 0 size)
          (append-content cq [] (some path) 0 size (λ e. ground (arith, n, e))).3
          (refl, omega arith) g
  ]

  http_append-Grown :
      (chunked : Bool) (cq : Queue)
      → Grown path size old cq
      → Grown path size old (http_append_file chunked cq (some path) 0 size)
  unfolding http_append_file append_len
  http_append-Grown false cq g = Grown-file cq g
  http_append-Grown true cq g =
      let g' =
        Grown-file (append_buffer cq (some (chunk_len size))) (Grown-text cq (chunk_len size) g) in
      if_cases (Grown path size old) (is_positive size) _ _
        (λ t.
          Grown-crlf (append_file (append_buffer cq (some (chunk_len size))) (some path) 0 size) g')
        (λ f. g')

-- The parts of a range are spans of the file.
parts-FromFile :
    (path : Bytes) (ct : Option Bytes) (size : ℕ) (spans : List Span)
    → All (Inside size) spans
    → All (FromFile path size) (part_pieces path ct size spans)
unfolding part_pieces
parts-FromFile path ct size [] al = tt
parts-FromFile path ct size ((a, b) ∷ spans) al =
    (tt, ((refl, omega (arith, al.0)), parts-FromFile path ct size spans al.1))

module _ (path : Bytes) (size : ℕ) (cq : Queue) where
  -- The connection has what the code put into the queue.
  abbrev pub GrownCon : Con → Type 0
  GrownCon con = Grown path size (content cq) con.queue

  outcome-Grown :
      (ct : Option Bytes) (outcome : Outcome) (con : Con)
      → Served path ct size (content cq) (some outcome)
      → GrownCon (take_outcome outcome con)
  unfolding take_outcome apply_header
  outcome-Grown ct (error p) con (spans, al, h) =
      (part_pieces path ct size spans, h.0, parts-FromFile path ct size spans al)
  outcome-Grown ct (set_up (inserting key text) p) con (a, b, i, h, r, t) =
      (span (some path) a (b + 1 - a) ∷ [], h.0, ((refl, omega (arith, i)), tt))
  outcome-Grown ct (set_up (overwriting key text) p) con (spans, al, h, r, t) = (
    part_pieces path ct size spans ++ bytes last_boundary ∷ [],
    h.0,
    All-both (FromFile path size) (part_pieces path ct size spans) _
        (parts-FromFile path ct size spans al) (tt, tt),
  )

  range-Grown :
      (ct : Option Bytes) (outcome : Option Outcome) (con : Con)
      → Served path ct size (content cq) outcome
      → GrownCon (take_range outcome con)
  unfolding take_range
  range-Grown ct none con s = absurd s
  range-Grown ct (some outcome) con s = outcome-Grown ct outcome con s

  parsed-Served :
      (ct : Option Bytes) (n : ℕ) (p : Option Bytes) (range : Bytes) (q : Queue) (http_status : ℕ)
      → n ≡ size
      → p ≡ some path
      → q ≡ cq
      → size ≤ 2 ^ 63
      → strchr b'-' range ≢ none
      → Served path ct size (content cq) (parse_range (text_of p) ct n range q http_status)
  parsed-Served ct n p range q http_status e f g fits h =
      rw (e, f, g) (parse_range-Served path ct size range cq http_status fits h)

  file-Grown :
      (chunked : Bool) (n : ℕ) (p : Option Bytes) (q : Queue)
      → n ≡ size
      → p ≡ some path
      → q ≡ cq
      → Grown path size (content cq) (http_append_file chunked q p 0 n)
  file-Grown chunked n p q e f g =
      rw (e, f, g)
        (http_append-Grown path size (content cq) chunked cq
          ([], sym (append-nil (content cq)), tt))

  pub serve_for-Grown :
      (conf : Conf) (sce : Stat) (mtime range : Option Bytes) (con : Con)
      → sce.size ≡ size
      → con.path ≡ some path
      → con.queue ≡ cq
      → size ≤ 2 ^ 63
      → ((r : Bytes) → range ≡ some r → strchr b'-' r ≢ none)
      → GrownCon (serve_for conf sce mtime range con).1
  unfolding serve_for serve_file serve_range
  serve_for-Grown conf sce mtime none con e f g fits h =
      file-Grown con.chunked sce.size con.path con.queue e f g
  serve_for-Grown conf sce mtime (some r) con e f g fits h =
      if_cases (λ (o : HandlerResult × Con). GrownCon o.1)
        (conf.range_requests && range_applies mtime con) _ _
        (λ t.
          range-Grown (get_header (codes "Content-Type") con.headers) _
            (record con { file_finished = true })
            (parsed-Served _ sce.size con.path r con.queue con.http_status e f g fits (h r refl)))
        (λ t. file-Grown con.chunked sce.size con.path con.queue e f g)
