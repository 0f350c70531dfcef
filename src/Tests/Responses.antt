-- ===== src/Tests/Responses.antt =====
-- Ranges, conditional requests, static files and the path of a request, on concrete inputs.
use lighttpd_autothumb.Number.{ltostr, to_digits, digits_loop}
use lighttpd_autothumb.Chars.{light_isdigit}
use lighttpd_autothumb.CString.{
  strchr, strtoll, signed_or, number_or, digits, saturated, ◌+ℤ◌, ◌-ℤ◌, pattern_of,
}
use lighttpd_autothumb.Request.Line.{skip_space}
use lighttpd_autothumb.ChunkQueue.{
  queue_init, append_buffer, append_file, append_chunk, get_unused_chunk,
}
use lighttpd_autothumb.ChunkQueue.Content.{content, span, Piece}
use lighttpd_autothumb.Range.{
  part_at, parse_suffix, parse_from, parse_both, parse_part, clip_start, clip_end, clip, queue_text,
  queue_file, queue_part, part_loop, after_part, close_parts, parse_range, Outcome, error, set_up,
}
use lighttpd_autothumb.Range.Served.{Served, parse_range-Served}
use lighttpd_autothumb.Cachable as Cachable
use lighttpd_autothumb.Cachable.{
  handle_cachable, with_etag, compare_dates, etag_is_equal, before_semicolon, answered,
}
use lighttpd_autothumb.Cachable.NotModified.{NotModified, handle_cachable-NotModified}
use lighttpd_autothumb.StaticFile as StaticFile
use lighttpd_autothumb.StaticFile.{subrequest}
use lighttpd_autothumb.StaticFile.Allowed.{Outcome as FileOutcome, subrequest-Outcome}
use lighttpd_autothumb.Base.{
  ℕ, ◌^◌, ◌≤◌, ◌≡◌, refl, ◌≢◌, ◌↔◌, true, false, Option, none, some, List, [], ◌∷◌, arith, Bytes,
  codes, equal,
}

abbrev file_name : Bytes
file_name = codes "/f"

-- A range of a file of 100 bytes.
parse_for : Bytes → Option Outcome
unfolding parse_range part_loop after_part parse_part parse_suffix parse_from parse_both part_at
    clip_start clip_end clip strchr strtoll signed_or number_or digits saturated ◌+ℤ◌ ◌-ℤ◌
    pattern_of skip_space light_isdigit queue_part queue_file queue_text append_buffer append_file
    append_chunk get_unused_chunk close_parts ltostr to_digits digits_loop queue_init
parse_for range = parse_range file_name none 100 range queue_init 0

queued : Option Outcome → List Piece
queued none = []
queued (some (error p)) = content p.queue
queued (some (set_up header p)) = content p.queue

single_range_runs : queued (parse_for (codes "90-200")) ≡ span (some file_name) 90 10 ∷ []
unfolding queued parse_for
single_range_runs = refl

suffix_range_runs : queued (parse_for (codes "-7")) ≡ span (some file_name) 93 7 ∷ []
unfolding queued parse_for
suffix_range_runs = refl

-- A range that ends in front of its start: nothing is queued, and no status is set.
status_of : Option Outcome → Option ℕ
status_of none = none
status_of (some (error p)) = some p.http_status
status_of (some (set_up header p)) = none

backward_range_runs : status_of (parse_for (codes "5-3")) ≡ some 0
unfolding status_of parse_for
backward_range_runs = refl

minus_there : strchr b'-' (codes "0-9,-5") ≢ none
unfolding strchr
minus_there e = cc e

parse_range-Served_example :
    Served file_name
      (some (codes "text/plain"))
      100
      (content queue_init)
      (parse_range file_name (some (codes "text/plain")) 100 (codes "0-9,-5") queue_init 0)
parse_range-Served_example =
    parse_range-Served file_name (some (codes "text/plain")) 100 (codes "0-9,-5") queue_init 0
      (omega arith) minus_there

abbrev date : Bytes
date = codes "Sat, 23 Jul 2005 21:20:01 GMT"

abbrev no_time : Bytes → Option ℕ
no_time text = none

abbrev conditional : Cachable.Request
conditional = record {
  http_method = 0;
  if_none_match = some (codes "\"7\"");
  if_modified_since = some date;
}

cachable_runs :
    handle_cachable no_time 5 (some (codes "\"7\"")) date conditional ≡ answered (some 304)
unfolding handle_cachable with_etag compare_dates etag_is_equal before_semicolon equal
cachable_runs = refl

-- A date that is only the beginning of the file's is answered with no status.
prefix_date_runs :
    handle_cachable no_time 5 none date
      (record { http_method = 0; if_none_match = none; if_modified_since = some (codes "Sat") })
    ≡ answered none
unfolding handle_cachable compare_dates before_semicolon equal
prefix_date_runs = refl

handle_cachable-NotModified_example :
    (handle_cachable no_time 5 (some (codes "\"7\"")) date conditional ≡ answered (some 304))
    ↔ NotModified no_time 5 (some (codes "\"7\"")) date conditional
handle_cachable-NotModified_example =
    handle_cachable-NotModified no_time 5 (some (codes "\"7\"")) date conditional

abbrev conf : StaticFile.Conf
conf = record {
  exclude_ext = some (codes ".php") ∷ [];
  etags_used = true;
  etag_flags = 7;
  follow_symlink = false;
  range_requests = true;
}

abbrev entry : StaticFile.Stat
entry = record {
  is_symlink = false;
  is_regular = true;
  size = 100;
  content_type = some (codes "text/plain");
  etag = some (codes "1-100-5");
}

abbrev asked : StaticFile.Con
asked = record {
  http_status = 0;
  direct = true;
  request = record { http_method = 0; if_none_match = none; if_modified_since = none };
  http_range = some (codes "0-9,-5");
  if_range = none;
  uri_path = some file_name;
  path = some file_name;
  etag = none;
  headers = [];
  chunked = false;
  queue = queue_init;
  content_length = 0;
  file_finished = false;
}

small : (sce : StaticFile.Stat) → some entry ≡ some sce → sce.size ≤ 2 ^ 63
small sce e = let q : 100 ≡ sce.size = cc (e) in omega (arith, q)

asked_minus : (r : Bytes) → asked.http_range ≡ some r → strchr b'-' r ≢ none
asked_minus r e z = minus_there (cc (e, z))

subrequest-Outcome_example :
    FileOutcome conf (some entry) asked (subrequest conf (some entry) no_time 5 date asked).1
subrequest-Outcome_example =
    subrequest-Outcome conf (some entry) no_time 5 date asked small asked_minus
