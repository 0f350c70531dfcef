-- ===== src/Response.antt =====
-- `http_response_prepare` of src/response.c and `http_response_redirect_to_directory` of
-- src/http-header-glue.c: from the URI of a request to the file that it names. The configuration is
-- taken as it is merged for the request. The plugins are lists of functions; `stat_cache_get_entry` and
-- the name of the socket are parameters. Texts have no zero byte, but for the path of an empty URI.
pub mod PathInfo
pub mod Found
pub mod Lower
pub mod Clean
use lighttpd_autothumb.Number.{pos, ltostr}
use lighttpd_autothumb.Uri.{
  HandlerResult, unset, go_on, finished, comeback, wait_for_event, error, wait_for_fd, lower,
}
use lighttpd_autothumb.UrlDecode.{urldecode_path}
use lighttpd_autothumb.PathSimplify.{Simplified, path_simplify}
use lighttpd_autothumb.ChunkQueue.{Queue, queue_reset}
use lighttpd_autothumb.Plugin.{plugins_call}
use lighttpd_autothumb.ResponseHeaders.{header_insert}
use PathInfo.{Stat, StatResult, entry, eacces, enoent, enotdir, other_error, find_file}
use lighttpd_autothumb.Base.{
  ℕ, ◌-◌, ◌/◌, Bool, true, false, not, ◌&&◌, ◌||◌, Option, none, some, List, [], ◌∷◌, ◌++◌, map,
  ◌==◌, if◌then◌else◌, length, get_or, take, Bytes, codes, equal,
}

pub record Conf : Type 0 where
  pub is_ssl : Bool
  pub document_root : Bytes
  pub allow_http11 : Bool
  pub force_lowercase_filenames : Bool
  pub follow_symlink : Bool
  pub port : ℕ

pub record Con : Type 0 where
  pub direct : Bool
  pub http_status : ℕ
  pub file_finished : Bool
  pub write_queue : Queue
  pub http_method : ℕ
  pub http_version : ℕ
  pub request_uri : Bytes
  pub http_host : Option Bytes
  pub scheme : Bytes
  pub authority : Option Bytes
  pub path_raw : Bytes
  pub query : Option Bytes
  pub uri_path : Bytes
  pub doc_root : Bytes
  pub rel_path : Bytes
  pub basedir : Bytes
  pub path : Option Bytes
  pub pathinfo : Bytes
  pub server_name : Option Bytes
  pub headers : List (Bytes × Bytes)

abbrev pub Plugin : Type 0
Plugin = Con → HandlerResult × Con

pub record Plugins : Type 0 where
  pub uri_raw : List Plugin
  pub uri_clean : List Plugin
  pub docroot : List Plugin
  pub physical : List Plugin
  pub subrequest_start : List Plugin
  pub subrequest : List Plugin

-- The function goes on, or it returns.
pub data Flow : Type 0 where
  next : Con → Flow
  done : HandlerResult → Con → Flow

infixl 5 ◌>>=◌
abbrev pub ◌>>=◌ : Flow → (Con → Flow) → Flow
next con >>= f = f con
done r con >>= f = done r con

-- The switch behind the call of a slot; a result that it does not know is logged.
unfoldable pub switch : HandlerResult → Con → Flow
switch go_on con = next con
switch finished con = done finished con
switch comeback con = done comeback con
switch wait_for_event con = done wait_for_event con
switch error con = done error con
switch unset con = next con
switch wait_for_fd con = next con

unfoldable pub call : List Plugin → Con → Flow
call plugins con = let (r, con') = plugins_call plugins con in switch r con'

-- The text in front of the first `c`, and the text behind it, if there is one.
unfoldable pub cut_at : ℕ → Bytes → Bytes × Option Bytes
cut_at c [] = ([], none)
cut_at c (d ∷ s) =
    let (front, back) = cut_at c s in if d == c then ([], some s) else (d ∷ front, back)

-- The scheme, the host, and the URI in its parts.
unfoldable pub prepare_strings : Conf → Con → Con
prepare_strings conf con =
    let uri = (cut_at b'#' con.request_uri).0 in
    let (raw, query') = cut_at b'?' uri in
    record con {
      scheme = if conf.is_ssl then codes "https" else codes "http";
      authority = elim con.http_host [ none ↦ none | some host ↦ some (map lower host) ];
      request_uri = uri;
      path_raw = raw;
      query = query';
    }

abbrev pub method_options : ℕ
method_options = 3

abbrev pub star : Bytes
star = b'*' ∷ []

-- What `dest` holds up to its closing zero, which `used` counts.
abbrev pub simplified_text : Simplified → Bytes
simplified_text d = take (d.used - 1) d.stored

unfoldable pub clean_uri : Con → Con
clean_uri con =
    if con.http_method == method_options && equal con.path_raw star
    then record con { uri_path = con.path_raw }
    else record con { uri_path = simplified_text (path_simplify (urldecode_path con.path_raw)) }

unfoldable pub downgrade : Conf → Con → Con
downgrade conf con = if conf.allow_http11 then con else record con { http_version = 0 }

unfoldable pub answer_options : Con → Flow
answer_options con =
    if con.http_method == method_options
      && (get_or con.uri_path 0 0 == b'*' && get_or con.path_raw 1 0 == 0)
    then done finished (record con {
      headers = header_insert (codes "Allow") (codes "OPTIONS, GET, HEAD, POST") con.headers;
      http_status = 200;
      file_finished = true;
    })
    else next con

unfoldable pub set_doc_root : Conf → Con → Con
set_doc_root conf con = record con { doc_root = conf.document_root; rel_path = con.uri_path }

abbrev pub last_or : ℕ → Bytes → ℕ
last_or c [] = c
last_or c (d ∷ s) = last_or d s

-- `BUFFER_APPEND_SLASH`
unfoldable pub append_slash : Bytes → Bytes
append_slash [] = []
append_slash (c ∷ s) = if last_or c s == b'/' then c ∷ s else (c ∷ s) ++ b'/' ∷ []

abbrev pub without_slash : Bytes → Bytes
without_slash [] = []
without_slash (c ∷ s) = if c == b'/' then s else c ∷ s

-- `buffer_is_empty`
abbrev pub or_else : Option Bytes → Option Bytes → Option Bytes
or_else none b = b
or_else (some s) b = some s

unfoldable pub lower_rel_path : Conf → Con → Con
lower_rel_path conf con =
    if conf.force_lowercase_filenames then record con { rel_path = map lower con.rel_path } else con

unfoldable pub set_physical : Con → Con
set_physical con = record con {
  server_name = or_else con.server_name con.authority;
  basedir = append_slash con.doc_root;
  path = some (append_slash con.doc_root ++ without_slash con.rel_path);
}

unfoldable pub raw_stage : Plugins → Conf → Con → Flow
raw_stage plugins conf con = call plugins.uri_raw (prepare_strings conf con)

unfoldable pub clean_stage : Plugins → Conf → Con → Flow
clean_stage plugins conf con = call plugins.uri_clean (downgrade conf (clean_uri con))

unfoldable pub root_stage : Plugins → Conf → Con → Flow
root_stage plugins conf con = call plugins.docroot (set_doc_root conf con)

unfoldable pub physical_stage : Plugins → Conf → Con → Flow
physical_stage plugins conf con = call plugins.physical (set_physical (lower_rel_path conf con))

-- `if (con->mode == DIRECT && con->physical.path->used == 0)`
unfoldable pub build_path : Plugins → Conf → Con → Flow
build_path plugins conf con =
    raw_stage plugins conf con
    >>= clean_stage plugins conf
    >>= answer_options
    >>= root_stage plugins conf
    >>= physical_stage plugins conf

-- The name of the server's side of the connection, where the request names no host.
pub data SocketName : Type 0 where
  no_name unsupported : SocketName
  named : Bytes → SocketName

unfoldable pub location : Conf → Con → Bytes → Bytes
location conf con host =
    (if conf.is_ssl then codes "https://" else codes "http://")
    ++ (host
        ++ (con.uri_path ++ (codes "/" ++ elim con.query [ none ↦ [] | some s ↦ codes "?" ++ s ])))

abbrev pub redirected : Conf → Con → Bytes → Con
redirected conf con host = record con {
  headers = header_insert (codes "Location") (location conf con host) con.headers;
  http_status = 301;
  file_finished = true;
}

unfoldable pub port_text : Conf → Bytes
port_text conf =
    if conf.port == (if conf.is_ssl then 443 else 80)
    then []
    else codes ":" ++ ltostr (pos conf.port)

unfoldable pub redirect_to_directory : Conf → SocketName → Con → Con
redirect_to_directory conf name con = elim con.authority [
  | some host ↦ redirected conf con host
  | none ↦ elim name [
    | no_name ↦ record con { http_status = 500 }
    | unsupported ↦ con
    | named host ↦ redirected conf con (host ++ port_text conf)
  ]
]

abbrev pub refuse_path : ℕ → Con → Flow
refuse_path status con = done finished (record con { http_status = status; path = none })

-- A symbolic link that is not followed.
abbrev pub is_refused : Conf → Stat → Bool
is_refused conf sce = sce.is_symlink && not conf.follow_symlink

unfoldable pub check_entry : Conf → SocketName → Stat → Con → Flow
check_entry conf name sce con =
    if is_refused conf sce
    then refuse_path 403 con
    else if sce.is_directory && not (last_or 0 con.uri_path == b'/')
    then done finished (redirect_to_directory conf name con)
    else next con

abbrev pub is_nil : Bytes → Bool
is_nil [] = true
is_nil (c ∷ s) = false

-- `if (pathinfo)`: the rest of the path, by which the path of the URI is shortened. Where a plugin made
-- the rest the longer one, `used` wraps in the source, while the path is empty here.
unfoldable pub set_pathinfo : Bytes → Bytes → Con → Con
set_pathinfo front info con = if is_nil info then record con { path = some front } else record con {
  path = some front;
  pathinfo = info;
  uri_path = take (length con.uri_path - length info) con.uri_path;
}

unfoldable pub take_found : Conf → Option (Bytes × Bytes × Stat) → Con → Flow
take_found conf none con = refuse_path 404 con
take_found conf (some (front, info, sce)) con =
    if not sce.is_regular
    then refuse_path 404 con
    else if is_refused conf sce
    then refuse_path 403 con
    else next (set_pathinfo front info con)

unfoldable pub check_stat :
    Conf → SocketName → (Bytes → StatResult) → Bytes → StatResult → Con → Flow
check_stat conf name stat path (entry sce) con = check_entry conf name sce con
check_stat conf name stat path eacces con = refuse_path 403 con
check_stat conf name stat path enoent con = refuse_path 404 con
check_stat conf name stat path other_error con = refuse_path 500 con
check_stat conf name stat path enotdir con =
    take_found conf (find_file stat (length con.basedir) path) con

abbrev pub text_of : Option Bytes → Bytes
text_of none = []
text_of (some text) = text

unfoldable pub check_path : Conf → SocketName → (Bytes → StatResult) → Con → Flow
check_path conf name stat con =
    let path = text_of con.path in check_stat conf name stat path (stat path) con

unfoldable pub after_start : HandlerResult → Con → Flow
after_start go_on con =
    if con.direct && con.http_status == 0
    then done finished
        (record con { http_status = if con.http_method == method_options then 200 else 403 })
    else next con
after_start unset con = done unset con
after_start finished con = done finished con
after_start comeback con = done comeback con
after_start wait_for_event con = done wait_for_event con
after_start error con = done error con
after_start wait_for_fd con = done wait_for_fd con

-- `if (con->mode == DIRECT)`
unfoldable pub handle_path : Plugins → Conf → SocketName → (Bytes → StatResult) → Con → Flow
handle_path plugins conf name stat con =
    check_path conf name stat con
    >>= (λ found. let (r, con') = plugins_call plugins.subrequest_start found in after_start r con')

abbrev pub after_subrequest : HandlerResult → HandlerResult
after_subrequest go_on = finished
after_subrequest unset = unset
after_subrequest finished = finished
after_subrequest comeback = comeback
after_subrequest wait_for_event = wait_for_event
after_subrequest error = error
after_subrequest wait_for_fd = wait_for_fd

abbrev pub is_none : Option Bytes → Bool
is_none none = true
is_none (some text) = false

unfoldable pub run_subrequest : Plugins → Flow → HandlerResult × Con
run_subrequest plugins (done r con) = (r, con)
run_subrequest plugins (next con) =
    let (r, con') = plugins_call plugins.subrequest con in (after_subrequest r, con')

unfoldable pub prepare :
    Plugins → Conf → SocketName → (Bytes → StatResult) → Con → HandlerResult × Con
prepare plugins conf name stat con =
    if con.direct && not (con.http_status == 0 || con.http_status == 200)
    then (
      finished,
      (if con.file_finished then con else record con { write_queue = queue_reset con.write_queue }),
    )
    else run_subrequest plugins (
        (if con.direct && is_none con.path then build_path plugins conf con else next con)
        >>= (λ built.
            if built.direct then handle_path plugins conf name stat built else next built))
