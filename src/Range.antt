-- ===== src/Range.antt =====
-- `http_response_parse_range` of src/mod_staticfile.c: the parts of a file that a Range header asks
-- for, put into the write queue. A text is what a pointer into the header's value sees of it, so that
-- two pointers are the same where the texts have one length. The file is below 2 ^ 63.
pub mod Bounds
pub mod Queued
pub mod Served
use lighttpd_autothumb.Number.{ℤ, pos, negsuc, ltostr}
use lighttpd_autothumb.ChunkQueue.{Queue, append_buffer, append_file, off_mod}
use lighttpd_autothumb.CString.{strchr, strtoll, sub_ℕ, lt_ℤ, ◌+ℤ◌, ◌-ℤ◌, pattern_of}
use lighttpd_autothumb.Base.{
  ℕ, zero, suc, ◌+◌, ◌-◌, ◌/◌, ◌%◌, Bool, true, false, Option, none, some, [], ◌∷◌, ◌++◌, ◌==◌,
  if◌then◌else◌, length, drop, Bytes, codes,
}

-- What is found out about one part: the text to go on with, its first and last byte, and whether
-- more than one part is seen; or an error, with the status that it sets.
pub data Part : Type 0 where
  part : Bytes → ℤ → ℤ → Bool → Part
  refused : Option ℕ → Part

-- `*err == '\0'`, `*err == ','`, or an error.
unfoldable pub part_at : Bytes → ℤ → ℤ → Bool → Part
part_at [] start end multipart = part [] start end multipart
part_at (c ∷ s) start end multipart = if c == b',' then part s start end true else refused none

abbrev pub is_zero : ℤ → Bool
is_zero (pos n) = n == 0
is_zero (negsuc n) = false

-- `-<stop>`
unfoldable pub parse_suffix : ℕ → Bytes → Bool → Part
parse_suffix size s multipart =
    let (le, err) = strtoll s in
    if is_zero le then refused (some 416) else part_at err (pos size +ℤ le) (sub_ℕ size 1) multipart

-- `<start>-`
unfoldable pub parse_from : ℕ → Bytes → Bytes → Bool → Part
parse_from size s minus multipart =
    let (la, err) = strtoll s in
    if length err == length minus
    then part_at (drop 1 err) la (sub_ℕ size 1) multipart
    else refused none

-- `<start>-<stop>`
unfoldable pub parse_both : Bytes → Bytes → Bool → Part
parse_both s minus multipart =
    let (la, err) = strtoll s in
    let (le, err') = strtoll (drop 1 minus) in
    if length err == length minus
    then (if lt_ℤ le la then refused none else part_at err' la le multipart)
    else refused none

abbrev pub ends_part : Bytes → Bool
ends_part [] = true
ends_part (c ∷ s) = c == b','

-- The three forms; `minus` is the text from the first minus on.
unfoldable pub parse_part : ℕ → Bytes → Bytes → Bool → Part
parse_part size s minus multipart =
    if length s == length minus
    then parse_suffix size s multipart
    else if ends_part (drop 1 minus)
    then parse_from size s minus multipart
    else parse_both s minus multipart

-- The part is brought into the file.
unfoldable pub clip_start : ℤ → ℤ
clip_start start = if lt_ℤ start (pos 0) then pos 0 else start

unfoldable pub clip_end : ℤ → ℤ → ℤ
clip_end last end = if lt_ℤ last end then last else end

unfoldable pub clip : ℕ → Part → Part
clip size (refused status) = refused status
clip size (part s start end multipart) =
    let last = sub_ℕ size 1 in
    if lt_ℤ last (clip_start start)
    then refused (some 416)
    else part s (clip_start start) (clip_end last end) multipart

-- What the function works on: the write queue, the length of the response, the status, the span of
-- the last part, and whether there are several.
pub record Progress : Type 0 where
  pub queue : Queue
  pub content_length : ℕ
  pub http_status : ℕ
  pub start : ℤ
  pub end : ℤ
  pub multipart : Bool

abbrev pub boundary : Bytes
boundary = codes "fkj49sn38dcn3"

abbrev pub content_type_text : Option Bytes → Bytes
content_type_text none = []
content_type_text (some text) = text

abbrev pub span_text : ℕ → ℤ → ℤ → Bytes
span_text size start end =
    codes "bytes "
    ++ (ltostr start ++ (codes "-" ++ (ltostr end ++ (codes "/" ++ ltostr (pos size)))))

unfoldable pub part_header : Option Bytes → ℕ → ℤ → ℤ → Bytes
part_header content_type size start end =
    codes "\r\n--"
    ++ (boundary
        ++ (codes "\r\nContent-Range: "
            ++ (span_text size start end
                ++ (codes "\r\nContent-Type: "
                    ++ (content_type_text content_type ++ codes "\r\n\r\n")))))

-- A text in a buffer that the queue gives.
unfoldable pub queue_text : Bytes → Progress → Progress
queue_text text p = record p {
  queue = append_buffer p.queue (some text);
  content_length = (p.content_length + length text) % off_mod;
}

unfoldable pub queue_file : Bytes → ℕ → Progress → Progress
queue_file path len p = record p {
  queue = append_file p.queue (some path) (pattern_of p.start) len;
  content_length = (p.content_length + len) % off_mod;
}

-- `if (!error)` at the end of a round.
unfoldable pub queue_part : Bytes → Option Bytes → ℕ → Progress → Progress
queue_part path content_type size p =
    let p' =
      if p.multipart then queue_text (part_header content_type size p.start p.end) p else p in
    queue_file path (pattern_of (p.end -ℤ p.start +ℤ pos 1)) p'

-- The end of the loop: by its test, or by an error.
pub data LoopEnd : Type 0 where
  all_read : Progress → LoopEnd
  failed : Progress → LoopEnd

abbrev pub set_status : Option ℕ → Progress → Progress
set_status none p = p
set_status (some status) p = record p { http_status = status }

-- A round behind the parsing: `rest` is the loop that follows.
unfoldable pub after_part :
    (Bytes → Progress → Option LoopEnd)
    → Bytes
    → Option Bytes
    → ℕ
    → Progress
    → Part
    → Option LoopEnd
after_part rest path content_type size p (refused status) = some (failed (set_status status p))
after_part rest path content_type size p (part s start end multipart) = rest s (
    queue_part path content_type size
      (record p { start = start; end = end; multipart = multipart }))

-- The loop, with the rounds left; `none` where they do not do.
unfoldable pub part_loop : ℕ → Bytes → Option Bytes → ℕ → Bytes → Progress → Option LoopEnd
part_loop zero path content_type size s p = none
part_loop (suc rounds) path content_type size s p = elim (strchr b'-' s) [
  | none ↦ some (all_read p)
  | some minus ↦
      after_part (part_loop rounds path content_type size) path content_type size p
        (clip size (parse_part size s minus p.multipart))
]

-- What is done to the headers of the response in the end.
pub data HeaderCall : Type 0 where
  overwriting : Bytes → Bytes → HeaderCall
  inserting : Bytes → Bytes → HeaderCall

abbrev pub last_boundary : Bytes
last_boundary = codes "\r\n--" ++ (boundary ++ codes "--\r\n")

-- What is returned, -1 or 0, and the header that is set.
pub data Outcome : Type 0 where
  error : Progress → Outcome
  set_up : HeaderCall → Progress → Outcome

unfoldable pub close_parts : ℕ → LoopEnd → Outcome
close_parts size (failed p) = error p
close_parts size (all_read p) =
    if p.multipart
    then set_up
        (overwriting (codes "Content-Type") (codes "multipart/byteranges; boundary=" ++ boundary))
        (queue_text last_boundary p)
    else set_up (inserting (codes "Content-Range") (span_text size p.start p.end)) p

abbrev pub before_parts : ℕ → Queue → ℕ → Progress
before_parts size queue http_status = record {
  queue = queue;
  content_length = 0;
  http_status = http_status;
  start = pos 0;
  end = sub_ℕ size 1;
  multipart = false;
}

-- Each round reads at least one byte of the range, so that one round more than it has is enough.
unfoldable pub parse_range : Bytes → Option Bytes → ℕ → Bytes → Queue → ℕ → Option Outcome
parse_range path content_type size range queue http_status =
    elim (part_loop (length range + 1) path content_type size range
      (before_parts size queue http_status)) [
        | none ↦ none
        | some end ↦ some (close_parts size end)
      ]
