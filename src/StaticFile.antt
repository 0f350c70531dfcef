-- ===== src/StaticFile.antt =====
-- `mod_staticfile_subrequest` of src/mod_staticfile.c. What `stat_cache_get_entry` gives is a
-- parameter, with none where it fails, and so is the text that `strftime_cache_get` gives for the date
-- of the file. A buffer with nothing in use is `none`; `physical.etag` is never NULL.
pub mod Growth
pub mod Allowed
use lighttpd_autothumb.ResponseHeaders.{get_header, header_insert, header_overwrite}
use lighttpd_autothumb.ChunkQueue.{Queue}
use lighttpd_autothumb.HttpChunk.{http_append_file}
use lighttpd_autothumb.Cachable.{Answer, goes_on, answered, handle_cachable, etag_mutate}
use lighttpd_autothumb.Range.{
  HeaderCall, overwriting, inserting, Outcome, error, set_up, Progress, parse_range,
}
use lighttpd_autothumb.Uri.{HandlerResult, go_on, finished}
use lighttpd_autothumb.Base.{
  ℕ, ◌-◌, Bool, true, false, not, ◌&&◌, ◌||◌, Option, none, some, List, [], ◌∷◌, ltb, ◌==◌,
  if◌then◌else◌, length, drop, Bytes, codes, equal,
}

pub record Conf : Type 0 where
  pub exclude_ext : List (Option Bytes)
  pub etags_used : Bool
  pub etag_flags : ℕ
  pub follow_symlink : Bool
  pub range_requests : Bool

-- A `stat_cache_entry`.
pub record Stat : Type 0 where
  pub is_symlink : Bool
  pub is_regular : Bool
  pub size : ℕ
  pub content_type : Option Bytes
  pub etag : Option Bytes

-- What the handler reads and writes of the connection; the headers are those of the response.
pub record Con : Type 0 where
  pub http_status : ℕ
  pub direct : Bool
  pub request : lighttpd_autothumb.Cachable.Request
  pub http_range : Option Bytes
  pub if_range : Option Bytes
  pub uri_path : Option Bytes
  pub path : Option Bytes
  pub etag : Option Bytes
  pub headers : List (Bytes × Bytes)
  pub chunked : Bool
  pub queue : Queue
  pub content_length : ℕ
  pub file_finished : Bool

abbrev pub set_header : Bytes → Bytes → Con → Con
set_header key value con = record con { headers = header_overwrite key value con.headers }

-- `buffer_is_equal_right_len(path, value, value->used - 1)`, where `value` is in use.
unfoldable pub ends_with : Option Bytes → Bytes → Bool
ends_with path [] = true
ends_with none (c ∷ value) = false
ends_with (some path) (c ∷ value) =
    if ltb (length path) (length (c ∷ value))
    then false
    else equal (drop (length path - length (c ∷ value)) path) (c ∷ value)

unfoldable pub is_excluded : List (Option Bytes) → Option Bytes → Bool
is_excluded [] path = false
is_excluded (none ∷ ext) path = is_excluded ext path
is_excluded (some value ∷ ext) path = ends_with path value || is_excluded ext path

-- Whether caching is allowed, and the type of the content in the headers.
unfoldable pub set_content_type : Stat → Con → Bool × Con
set_content_type sce con = elim (get_header (codes "Content-Type") con.headers) [
  | some value ↦ (true, con)
  | none ↦ elim sce.content_type [
    | none ↦ (false, set_header (codes "Content-Type") (codes "application/octet-stream") con)
    | some text ↦ (true, set_header (codes "Content-Type") text con)
  ]
]

unfoldable pub set_accept_ranges : Conf → Con → Con
set_accept_ranges conf con =
    if conf.range_requests then set_header (codes "Accept-Ranges") (codes "bytes") con else con

unfoldable pub mutate_etag : Option Bytes → Con → Con
mutate_etag none con = con
mutate_etag (some etag) con = elim (get_header (codes "ETag") con.headers) [
  | some value ↦ con
  | none ↦
      set_header (codes "ETag") (etag_mutate etag) (record con { etag = some (etag_mutate etag) })
]

unfoldable pub set_etag : Conf → Stat → Con → Con
set_etag conf sce con =
    if conf.etags_used && not (conf.etag_flags == 0) then mutate_etag sce.etag con else con

-- `mtime`, and the connection with its header.
unfoldable pub set_last_modified : Bytes → Con → Bytes × Con
set_last_modified date con = elim (get_header (codes "Last-Modified") con.headers) [
  | none ↦ (date, set_header (codes "Last-Modified") date con)
  | some value ↦ (value, con)
]

abbrev pub starts_quoted : Bytes → Bool
starts_quoted [] = false
starts_quoted (c ∷ s) = c == b'"'

unfoldable pub is_same : Option Bytes → Bytes → Bool
is_same none value = false
is_same (some text) value = equal text value

-- `do_range_request`
unfoldable pub range_applies : Option Bytes → Con → Bool
range_applies mtime con = elim con.if_range [
  | none ↦ true
  | some value ↦ if starts_quoted value then is_same con.etag value else is_same mtime value
]

unfoldable pub apply_header : HeaderCall → Con → Con
apply_header (overwriting key value) con = set_header key value con
apply_header (inserting key value) con = record con {
  headers = header_insert key value con.headers;
}

abbrev pub put_progress : Progress → Con → Con
put_progress p con = record con {
  queue = p.queue;
  content_length = p.content_length;
  http_status = p.http_status;
}

unfoldable pub take_outcome : Outcome → Con → Con
take_outcome (error p) con = put_progress p con
take_outcome (set_up header p) con = record (apply_header header (put_progress p con)) {
  http_status = 206;
}

unfoldable pub serve_file : Stat → Con → HandlerResult × Con
serve_file sce con = (
  finished,
  record con {
    queue = http_append_file con.chunked con.queue con.path 0 sce.size;
    http_status = 200;
    file_finished = true;
  },
)

unfoldable pub take_range : Option Outcome → Con → Con
take_range none con = con
take_range (some outcome) con = take_outcome outcome con

abbrev pub text_of : Option Bytes → Bytes
text_of none = []
text_of (some text) = text

unfoldable pub serve_range : Stat → Bytes → Con → HandlerResult × Con
serve_range sce range con = (
  finished,
  take_range
      (parse_range (text_of con.path) (get_header (codes "Content-Type") con.headers) sce.size range
        con.queue con.http_status)
      (record con { file_finished = true }),
)

-- Behind the cache validation: `range` is the one that the request asks for.
unfoldable pub serve_for : Conf → Stat → Option Bytes → Option Bytes → Con → HandlerResult × Con
serve_for conf sce mtime none con = serve_file sce con
serve_for conf sce mtime (some range) con =
    if conf.range_requests && range_applies mtime con
    then serve_range sce range con
    else serve_file sce con

unfoldable pub serve : Conf → Stat → Option Bytes → Con → HandlerResult × Con
serve conf sce mtime con = serve_for conf sce mtime con.http_range con

abbrev pub set_answer : Option ℕ → Con → Con
set_answer none con = con
set_answer (some status) con = record con { http_status = status }

abbrev pub take_answer : Answer → (Con → HandlerResult × Con) → Con → HandlerResult × Con
take_answer goes_on next con = next con
take_answer (answered status) next con = (finished, set_answer status con)

unfoldable pub validate : Conf → Stat → (Bytes → Option ℕ) → ℕ → Bytes → Con → HandlerResult × Con
validate conf sce time_of file_time date con =
    let (mtime, con') = set_last_modified date (set_etag conf sce con) in
    take_answer (handle_cachable time_of file_time con'.etag mtime con'.request)
      (serve conf sce (some mtime)) con'

-- A regular file that may be served.
unfoldable pub handle_file :
    Conf → Stat → (Bytes → Option ℕ) → ℕ → Bytes → Con → HandlerResult × Con
handle_file conf sce time_of file_time date con =
    let (allow_caching, typed) = set_content_type sce con in
    let con' = set_accept_ranges conf typed in
    if allow_caching
    then validate conf sce time_of file_time date con'
    else serve conf sce none con'

unfoldable pub check_file :
    Conf → Option Stat → (Bytes → Option ℕ) → ℕ → Bytes → Con → HandlerResult × Con
check_file conf none time_of file_time date con = (finished, record con { http_status = 403 })
check_file conf (some sce) time_of file_time date con =
    if sce.is_symlink && not conf.follow_symlink
    then (finished, record con { http_status = 403; path = none })
    else if not sce.is_regular
    then (finished, record con { http_status = 404 })
    else handle_file conf sce time_of file_time date con

-- GET, POST and HEAD.
abbrev pub is_handled : ℕ → Bool
is_handled m = m == 0 || (m == 1 || m == 2)

abbrev pub is_nil : Option Bytes → Bool
is_nil none = true
is_nil (some text) = false

-- `mod_staticfile_subrequest`
unfoldable pub subrequest :
    Conf → Option Stat → (Bytes → Option ℕ) → ℕ → Bytes → Con → HandlerResult × Con
subrequest conf stat time_of file_time date con =
    if not (con.http_status == 0)
    then (go_on, con)
    else if is_nil con.uri_path || is_nil con.path
    then (go_on, con)
    else if not con.direct || not (is_handled con.request.http_method)
    then (go_on, con)
    else if is_excluded conf.exclude_ext con.path
    then (go_on, con)
    else check_file conf stat time_of file_time date con
