-- ===== src/Tests/Requests.antt =====
-- The parser of requests, on concrete inputs.

use lighttpd_autothumb.Caseless.{caseless_compare, compare_chars, signed}
use lighttpd_autothumb.Array.{array_init}
use lighttpd_autothumb.Request.{Conf, Con, ok, unset}
use lighttpd_autothumb.Chars.{light_isdigit, light_isxdigit, light_isalnum, light_isalpha}
use lighttpd_autothumb.UrlDecode.{c_string}
use lighttpd_autothumb.KeyValue.{get_http_method_key, get_key, http_methods}
use lighttpd_autothumb.Request.Line.{
  parse_line, scan_line, first_line, take_line, take_version, parse_version, split_dot,
  parse_numbers, strtol_int, signed_number, to_int, number, number_from, int_of, skip_space,
  version_of, take_uri, split_uri, with_scheme, uri_is_valid_char,
}
use lighttpd_autothumb.Request.Host.{
  check_hostname, name_of, port_of, check_name, strip_dot, scan, step, top_step, domain_step,
  leave_top, counted, next_label, start, is_complete,
}
use lighttpd_autothumb.Request.Host.Safe.{
  HostChar, NoDoubleDot, IsPort, check_hostname-HostChar, check_hostname_behind,
}
use lighttpd_autothumb.Request.Field.{find_field, options}
use lighttpd_autothumb.Request.Headers.{
  header_loop, move, key_move, in_key, plain as plain_byte, key_byte, strip_trailing,
}
use lighttpd_autothumb.Request.Headers.Printed.{IsField, print_fields}
use lighttpd_autothumb.Request.Headers.Twice.{IsContentLength, RefusedAfter, header_loop-twice}
use lighttpd_autothumb.Request.Line.Written.{IsWord}
use lighttpd_autothumb.Request.Parse.{
  request_parse, begin, check_uri, add_host, read_headers, skip_line_end,
}
use lighttpd_autothumb.Request.Finish.{
  finish, set_keep_alive, check_host, check_method, check_length, host_text,
}
use lighttpd_autothumb.Request.Parse.Accepted.{Accepted, request_parse-Accepted}
use lighttpd_autothumb.Request.Parse.Written.{
  print_request, parse_parts, request_parse-print_request,
}
use lighttpd_autothumb.Base.{
  ℕ, ◌-◌, ◌≡◌, ◌≢◌, refl, inr, Bool, true, false, ◌||◌, none, some, List, [], ◌∷◌, ◌++◌, arith,
  ◌==◌, length, Bytes, codes, equal, All,
}

abbrev conf : Conf
conf = record { allow_http11 = true; reject_expect_100_with_417 = false; max_request_size = 0 }

abbrev new_con : Con
new_con = record {
  http_status = 0;
  keep_alive = false;
  response_keep_alive = false;
  http_method = 0;
  http_version = 0;
  request_line = none;
  uri = none;
  orig_uri = none;
  headers = array_init;
  http_host = none;
  content_length = 0;
  http_content_type = none;
  http_if_modified_since = none;
  http_if_none_match = none;
  http_range = none;
  header_len = 0;
  keep_alive_set = unset;
  con_length_set = false;
  reqline_host = none;
}

abbrev has_break : Bytes → Bool
has_break [] = false
has_break (c ∷ s) = c == b' ' || c == b'\r' || has_break s

unbroken-IsWord : (s : Bytes) → has_break s ≡ false → IsWord s
unbroken-IsWord [] h = tt
unbroken-IsWord (c ∷ s) h = (
  ((λ e. ground (arith, h, e)), (λ e. ground (arith, h, e))),
  unbroken-IsWord s (ground (arith, h)),
)

host_line-IsField : IsField (codes "Host", codes "a.b")
unfolding key_byte strip_trailing
host_line-IsField = (
  (refl, (refl, (refl, (refl, tt)))),
  (inr (omega arith), (inr (omega arith), (inr (omega arith), tt))),
  (λ e. cc e),
  refl,
  refl,
)

request_parse-print_request_example :
    request_parse conf 1
      (print_request
        (codes "GET")
        (codes "/")
        (codes "HTTP/1.1")
        ((codes "Host", codes "a.b") ∷ [])
        [])
      new_con
    ≡ parse_parts conf
        (codes "GET")
        (codes "/")
        (codes "HTTP/1.1")
        ((codes "Host", codes "a.b") ∷ [])
        (length (
            print_request
              (codes "GET")
              (codes "/")
              (codes "HTTP/1.1")
              ((codes "Host", codes "a.b") ∷ [])
              [])
          - length {A = ℕ} [])
        (begin new_con)
request_parse-print_request_example =
    request_parse-print_request conf 1 (codes "GET") (codes "/") (codes "HTTP/1.1")
      ((codes "Host", codes "a.b") ∷ []) [] new_con (unbroken-IsWord (codes "GET") refl)
      (unbroken-IsWord (codes "/") refl) (unbroken-IsWord (codes "HTTP/1.1") refl)
      (host_line-IsField, tt)

abbrev parsed_con : Con
parsed_con = record new_con {
  request_line = some (codes "GET / HTTP/1.0");
  uri = some (codes "/");
  orig_uri = some (codes "/");
  header_len = 18;
}

request_runs :
    request_parse conf 1 (codes "GET / HTTP/1.0\r\n\r\n") new_con ≡ ok (parsed_con, false)
unfolding request_parse begin parse_line scan_line first_line take_line take_version parse_version
    split_dot parse_numbers strtol_int signed_number to_int number number_from int_of skip_space
    version_of take_uri split_uri with_scheme uri_is_valid_char check_uri add_host read_headers
    header_loop move key_move key_byte finish set_keep_alive check_host check_method check_length
    host_text equal skip_line_end c_string light_isdigit get_http_method_key get_key http_methods
request_runs = refl

request_parse-Accepted_example : Accepted conf (parsed_con, false)
request_parse-Accepted_example =
    request_parse-Accepted conf 1 (codes "GET / HTTP/1.0\r\n\r\n") new_con parsed_con false refl
      request_runs

abbrev lengths : List (Bytes × Bytes)
lengths = (codes "Content-Length", codes "5") ∷ (codes "content-length", codes "0") ∷ []

find_runs : IsContentLength (codes "Content-Length") × IsContentLength (codes "content-length")
unfolding find_field options caseless_compare compare_chars signed
find_runs = (refl, refl)

plain_key :
    All (λ c. key_byte c ≡ plain_byte) (codes "Content-Length")
    × All (λ c. key_byte c ≡ plain_byte) (codes "content-length")
unfolding key_byte
plain_key = (
  (
    refl,
    (
      refl,
      (
        refl,
        (refl, (refl, (refl, (refl, (refl, (refl, (refl, (refl, (refl, (refl, (refl, tt))))))))))),
      ),
    ),
  ),
  (
    refl,
    (
      refl,
      (
        refl,
        (refl, (refl, (refl, (refl, (refl, (refl, (refl, (refl, (refl, (refl, (refl, tt))))))))))),
      ),
    ),
  ),
)

lengths-IsField : All IsField lengths
unfolding strip_trailing
lengths-IsField = (
  (plain_key.0, (inr (omega arith), tt), (λ e. cc e), refl, refl),
  ((plain_key.1, (inr (omega arith), tt), (λ e. cc e), refl, refl), tt),
)

header_loop-twice_example :
    RefusedAfter
      (header_loop conf false none
        (in_key [])
        new_con
        (print_fields ((codes "Content-Length", codes "5") ∷ []) (codes "hello")))
      (header_loop conf false none (in_key []) new_con (print_fields lengths (codes "hello")))
header_loop-twice_example =
    header_loop-twice conf none [] [] [] (codes "Content-Length") (codes "5")
      (codes "content-length") (codes "0") new_con (codes "hello") find_runs.0 find_runs.1
      (lengths-IsField.0, tt) lengths-IsField.1

host_runs : check_hostname (some (codes "a.b.:8")) ≡ (true, some (codes "a.b:8"))
unfolding check_hostname name_of port_of check_name strip_dot scan step top_step domain_step
    leave_top counted next_label start is_complete light_isdigit light_isalnum light_isalpha
host_runs = refl

check_hostname-HostChar_example :
    (name : Bytes) × (port : Bytes) × (codes "a.b:8" ≡ name ++ port)
    × (name ≢ [])
    × All HostChar name
    × NoDoubleDot name
    × IsPort port
check_hostname-HostChar_example =
    check_hostname-HostChar b'a' (codes ".b.:8") (codes "a.b:8") (λ e. omega (arith, e)) host_runs

one_digit : All (λ c. light_isxdigit c ≡ true) (codes "1")
unfolding light_isxdigit light_isdigit
one_digit = (refl, tt)

check_hostname_behind_example :
    check_hostname (some (codes "[1]/..")) ≡ (true, some (codes "[1]/.."))
check_hostname_behind_example =
    check_hostname_behind (codes "1") b'/' (codes "..") one_digit
      (((λ e. omega (arith, e)), (λ e. omega (arith, e))), tt) (λ e. omega (arith, e))
