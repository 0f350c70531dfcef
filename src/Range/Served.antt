-- ===== src/Range/Served.antt =====
-- What a Range header is answered with.
use lighttpd_autothumb.Number.{pos}
use lighttpd_autothumb.CString.{strchr}
use lighttpd_autothumb.ChunkQueue.{Queue}
use lighttpd_autothumb.ChunkQueue.Content.{Piece, bytes, span, content}
use lighttpd_autothumb.Range.{
  before_parts, queue_text, span_text, boundary, last_boundary, LoopEnd, all_read, failed,
  overwriting, inserting, Outcome, error, set_up, close_parts, parse_range,
}
use lighttpd_autothumb.Range.Queued.{
  Span, Inside, part_pieces, Holds, Ended, queue_text-Holds, Fresh-Looped, part_loop-Ended,
}
use lighttpd_autothumb.Base.{
  ℕ, ◌+◌, ◌-◌, ◌^◌, ◌≤◌, ◌≡◌, refl, sym, ap, ◌∙◌, ◌≢◌, inl, inr, Option, none, some, List, [], ◌∷◌,
  ◌++◌, append-nil, arith, length, Bytes, codes, All,
}

-- An error leaves parts with their headers; one part comes with its own place in the header; several
-- stand behind their headers, with the closing boundary behind them.
abbrev pub Served : Bytes → Option Bytes → ℕ → List Piece → Option Outcome → Type 0
Served path ct size old none = ⊥
Served path ct size old (some (error p)) =
    (spans : List Span) × All (Inside size) spans × Holds old (part_pieces path ct size spans) p
Served path ct size old (some (set_up (inserting key text) p)) =
    (a : ℕ) × (b : ℕ) × Inside size (a, b)
    × Holds old (span (some path) a (b + 1 - a) ∷ []) p
    × (key ≡ codes "Content-Range")
    × (text ≡ span_text size (pos a) (pos b))
Served path ct size old (some (set_up (overwriting key text) p)) =
    (spans : List Span) × All (Inside size) spans
    × Holds old (part_pieces path ct size spans ++ bytes last_boundary ∷ []) p
    × (key ≡ codes "Content-Type")
    × (text ≡ codes "multipart/byteranges; boundary=" ++ boundary)

module _ (path : Bytes) (ct : Option Bytes) (size : ℕ) (range : Bytes) (old : List Piece) where
  close-Served :
      (end : LoopEnd)
      → strchr b'-' range ≢ none
      → Ended path ct size range old (some end)
      → Served path ct size old (some (close_parts size end))
  unfolding close_parts queue_text
  close-Served (failed p) h e = e
  close-Served (all_read p) h (s, inl f, n) = absurd (h (ap (strchr b'-') (sym f.2) ∙ n))
  close-Served (all_read p) h (s, inr (inl (a, b, i, k, m, x, y, t)), n) =
      rw m (a, b, i, k, refl, rw (x, y) refl)
  close-Served (all_read p) h (s, inr (inr ((spans, al, k), m)), n) = rw m (
    spans,
    al,
    queue_text-Holds old (part_pieces path ct size spans) last_boundary p k,
    refl,
    refl,
  )

  started :
      (end : Option LoopEnd)
      → strchr b'-' range ≢ none
      → Ended path ct size range old end
      → Served path ct size old (elim end [ none ↦ none | some e ↦ some (close_parts size e) ])
  started none h e = e
  started (some end) h e = close-Served end h e

-- For a range with a minus and a file of at most 2 ^ 63 bytes the loop ends. One part is queued as one
-- span inside the file, and Content-Range names its first and last byte. Several parts are queued as
-- spans inside the file, each behind its part header, with the closing boundary behind them all, and
-- Content-Type names the boundary. An error leaves whole parts. In each case they stand behind what
-- was queued, and the content length is the length of what is put there, modulo 2 ^ 64.
pub parse_range-Served :
    (path : Bytes) (ct : Option Bytes) (size : ℕ) (range : Bytes) (queue : Queue) (http_status : ℕ)
    → size ≤ 2 ^ 63
    → strchr b'-' range ≢ none
    → Served path ct size (content queue) (parse_range path ct size range queue http_status)
unfolding parse_range
parse_range-Served path ct size range queue http_status fits h =
    started path ct size range (content queue) _ h (
      part_loop-Ended path ct size range (content queue) fits (length range + 1) range
        (before_parts size queue http_status) (omega arith)
        (Fresh-Looped path ct size range (content queue) (before_parts size queue http_status)
          ((sym (append-nil (content queue)), refl), refl, refl)))
