-- ===== src/Tests/Paths.antt =====
-- The path of a request, on concrete inputs.
use lighttpd_autothumb.Uri.{go_on, lower}
use lighttpd_autothumb.UrlDecode.{
  urldecode_path, urldecode, c_string, escape, plain, escape_value, unescaped,
}
use lighttpd_autothumb.Chars.{hex2int}
use lighttpd_autothumb.PathSimplify.{
  path_simplify, simplify_from, simplify_loop, terminated, close_token, to_parent, scan_back,
  rewind, shift_in, skip_spaces,
}
use lighttpd_autothumb.PathSimplify.Refines.{AreBytes, source_path}
use lighttpd_autothumb.ChunkQueue.{queue_init}
use lighttpd_autothumb.Plugin.{plugins_call, after_plugin}
use lighttpd_autothumb.Response.{
  simplified_text, Conf, Con, Plugin, Plugins, Flow, next, done, switch, call, cut_at,
  prepare_strings, clean_uri, downgrade, answer_options, set_doc_root, append_slash, lower_rel_path,
  set_physical, raw_stage, clean_stage, root_stage, physical_stage, build_path, no_name, check_path,
}
use lighttpd_autothumb.Response.PathInfo.{
  Stat, StatResult, entry, enotdir, find_file, find_loop, next_cut, take_entry, split_last,
}
use lighttpd_autothumb.Response.PathInfo.Longest.{Longest, find_file-Longest}
use lighttpd_autothumb.Response.Found.{Found, check_path-Found}
use lighttpd_autothumb.PathSimplify.Clean.{IsClean}
use lighttpd_autothumb.Response.Clean.{LeavePath, Below, decoded, raw_path, build_path-Below}
use lighttpd_autothumb.Base.{
  ◌≡◌, refl, ◌≢◌, ◌⊎◌, inl, inr, true, false, Option, none, some, [], ◌∷◌, ◌++◌, map, arith,
  if◌then◌else◌, Bytes, codes, equal,
}

abbrev conf : Conf
conf = record {
  is_ssl = false;
  document_root = codes "/var/www";
  allow_http11 = true;
  force_lowercase_filenames = true;
  follow_symlink = true;
  port = 80;
}

abbrev asked : Con
asked = record {
  direct = true;
  http_status = 0;
  file_finished = false;
  write_queue = queue_init;
  http_method = 0;
  http_version = 1;
  request_uri = codes "/%61/../CGI/x?y=1#z";
  http_host = some (codes "Host");
  scheme = [];
  authority = none;
  path_raw = [];
  query = none;
  uri_path = [];
  doc_root = [];
  rel_path = [];
  basedir = [];
  path = none;
  pathinfo = [];
  server_name = none;
  headers = [];
}

-- A virtual host.
abbrev vhost : Plugin
vhost con = (go_on, record con { doc_root = codes "/srv/host/" })

abbrev plugins : Plugins
plugins = record {
  uri_raw = [];
  uri_clean = [];
  docroot = vhost ∷ [];
  physical = [];
  subrequest_start = [];
  subrequest = [];
}

plugins-LeavePath : LeavePath plugins
plugins-LeavePath = (tt, tt, ((λ con. refl), tt), tt)

path_of : Flow → Option Bytes
path_of (next con) = con.path
path_of (done r con) = none

built : Flow
unfolding build_path raw_stage clean_stage root_stage physical_stage call switch plugins_call
    after_plugin prepare_strings cut_at clean_uri downgrade answer_options set_doc_root append_slash
    lower_rel_path set_physical path_simplify simplify_from simplify_loop terminated close_token
    to_parent scan_back rewind shift_in skip_spaces urldecode_path urldecode c_string escape plain
    escape_value unescaped hex2int lower equal queue_init
built = build_path plugins conf asked

built_runs : path_of built ≡ some (codes "/srv/host/cgi/x")
unfolding path_of built
built_runs = refl

con_of : Flow → Con
con_of (next con) = con
con_of (done r con) = con

built_next : build_path plugins conf asked ≡ next (con_of built)
unfolding built con_of
built_next = refl

source-AreBytes : AreBytes (decoded asked.request_uri)
unfolding cut_at urldecode_path urldecode c_string escape plain escape_value unescaped hex2int
source-AreBytes = omega arith

source_not_nil : source_path (decoded asked.request_uri) ≢ []
unfolding cut_at urldecode_path urldecode c_string escape plain escape_value unescaped hex2int
    skip_spaces
source_not_nil e = cc e

not_star : equal (raw_path asked.request_uri) (b'*' ∷ []) ≡ false
unfolding cut_at equal
not_star = refl

-- The roots of this server.
abbrev SiteRoot : Bytes → Type 0
SiteRoot root = (root ≡ conf.document_root) ⊎ (root ≡ codes "/srv/host/")

build_path-Below_example :
    (rel : Bytes) × (simplified_text (path_simplify (decoded asked.request_uri)) ≡ b'/' ∷ rel)
    × Below SiteRoot conf rel (con_of built)
    × IsClean rel
    × IsClean (map lower rel)
build_path-Below_example =
    build_path-Below plugins conf plugins-LeavePath SiteRoot asked (con_of built) (inl refl)
      ((λ con is. inr refl), tt) source-AreBytes source_not_nil not_star built_next

-- A file system with one script.
abbrev script : Stat
script = record { is_symlink = false; is_directory = false; is_regular = true }

abbrev stat : Bytes → StatResult
stat path = if equal path (codes "/w/x") then entry script else enotdir

find_file_runs : find_file stat 3 (codes "/w/x/y/z") ≡ some (codes "/w/x", codes "/y/z", script)
unfolding find_file find_loop next_cut take_entry split_last equal
find_file_runs = refl

find_file-Longest_example : Longest stat 3 (codes "/w/x/y/z") (find_file stat 3 (codes "/w/x/y/z"))
find_file-Longest_example = find_file-Longest stat 3 (codes "/w/x/y/z") (omega arith)

abbrev mapped : Con
mapped = record asked {
  basedir = codes "/w/";
  path = some (codes "/w/" ++ codes "x/y/z");
  uri_path = codes "/x/y/z";
}

check_path-Found_example : Found conf stat mapped (check_path conf no_name stat mapped)
check_path-Found_example =
    check_path-Found conf no_name stat mapped (codes "x/y/z") refl refl (omega arith)
