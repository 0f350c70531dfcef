-- ===== src/Request/Parse/Accepted.antt =====
-- What a request that the parser accepts looks like.
use mathlib.Core.Path.{subst}
use lighttpd_autothumb.Request.{Conf, Con, ok, stop, ◌>>=◌, reject, reject_all}
use lighttpd_autothumb.Request.Line.{
  Line, no_line, overlong, ended, scan_line, Version, invalid, unsupported, v1_0, v1_1,
  parse_version, split_uri, all_valid, take_uri, take_version, take_line, parse_line, first_line,
}
use lighttpd_autothumb.KeyValue.{get_http_method_key}
use lighttpd_autothumb.UrlDecode.{c_string}
use lighttpd_autothumb.Request.Kept.Loop.{header_loop-Kept}
use lighttpd_autothumb.Request.Kept.{
  OkAll, OkAll->>=, OkAll-map, OkAll-if, Kept, insert_header-Kept,
}
use lighttpd_autothumb.Request.Headers.{header_loop, in_key}
use lighttpd_autothumb.Request.Finish.{finish}
use lighttpd_autothumb.Request.Finish.Checked.{Framed, Hosted, Passed, finish-Checked}
use lighttpd_autothumb.Request.Parse.{
  skip_line_end, check_uri, add_host, begin, read_headers, request_parse,
}
use lighttpd_autothumb.Base.{
  ℕ, ◌≡◌, refl, sym, ap, ◌∙◌, ◌≢◌, inl, inr, Bool, true, false, not, ◌&&◌, Option, none, some, [],
  ◌∷◌, ◌==◌, if◌then◌else◌, Option-cases, Bytes, codes,
}

abbrev pub ValidUri : Con → Type 0
ValidUri con = (path : Bytes) → con.uri ≡ some path → all_valid path ≡ true

abbrev pub UsableUri : Con → Type 0
UsableUri con = (path : Bytes) → con.uri ≡ some path → (path ≢ []) × (all_valid path ≡ true)

take_uri-ValidUri :
    (version : ℕ) (uri : Bytes) (con : Con) → OkAll ValidUri (take_uri version uri con)
unfolding take_uri
take_uri-ValidUri version uri con =
    OkAll-if ValidUri (all_valid (split_uri uri).1) _ _
      (λ h path e. let same : (split_uri uri).1 ≡ path = cc e in ap all_valid (sym same) ∙ h)
      (λ h. tt)

take_version-ValidUri :
    (conf : Conf) (uri proto : Bytes) (con : Con) → OkAll ValidUri (take_version conf uri proto con)
unfolding take_version
take_version-ValidUri conf uri proto con = version_cases (parse_version (c_string proto))
  where
    version_cases :
        (v : Version)
        → OkAll ValidUri (elim v [
          | invalid ↦ stop (reject 400 con)
          | unsupported ↦ stop (record con { http_status = 505 })
          | v1_1 ↦ take_uri (if conf.allow_http11 then 1 else 0) uri con
          | v1_0 ↦ take_uri 0 uri con
        ])
    version_cases invalid = tt
    version_cases unsupported = tt
    version_cases v1_1 = take_uri-ValidUri _ uri con
    version_cases v1_0 = take_uri-ValidUri 0 uri con

take_line-ValidUri :
    (conf : Conf) (stage : ℕ) (method uri proto : Bytes) (con : Con)
    → OkAll ValidUri (take_line conf stage method uri proto con)
unfolding take_line
take_line-ValidUri conf stage method uri proto con =
    OkAll-if ValidUri (stage == 2) _ _ (λ h. method_cases (get_http_method_key (c_string method)))
      (λ h. tt)
  where
    method_cases :
        (m : Option ℕ)
        → OkAll ValidUri (elim m [
          | none ↦ stop (reject_all 501 con)
          | some r ↦ take_version conf uri proto (record con { http_method = r })
        ])
    method_cases none = tt
    method_cases (some r) = take_version-ValidUri conf uri proto (record con { http_method = r })

parse_line-ValidUri :
    (conf : Conf) (text : Bytes) (con : Con)
    → ValidUri con
    → OkAll (λ r. ValidUri r.0) (parse_line conf text con)
unfolding parse_line
parse_line-ValidUri conf text con h = line_cases (scan_line 0 [] [] [] text)
  where
    line_cases :
        (l : Line)
        → OkAll
            (λ (r : Con × Option Bytes). ValidUri r.0)
            (elim l [
              | no_line ↦ ok (con, none)
              | overlong ↦ stop (reject_all 400 con)
              | ended stage method uri proto rest ↦
                  take_line conf stage method uri proto
                    (record con { request_line = some (first_line text) })
                  >>= λ con'. ok (con', some rest)
            ])
    line_cases no_line = h
    line_cases overlong = tt
    line_cases (ended stage method uri proto rest) =
        OkAll->>= ValidUri (λ r. ValidUri r.0) _ _
          (take_line-ValidUri conf stage method uri proto _) (λ c v. v)

check_uri-UsableUri : (con : Con) → ValidUri con → OkAll UsableUri (check_uri con)
unfolding check_uri
check_uri-UsableUri con h = elim (Option-cases con.uri) [
  | inl n ↦ rw (n, check_uri) (λ path e. absurd (cc (n, e)))
  | inr (path, is) ↦ rw (is, check_uri) (path_cases path is)
]
  where
    path_cases :
        (path : Bytes)
        → con.uri ≡ some path
        → OkAll UsableUri (elim path [ [] ↦ stop (reject_all 400 con) | c ∷ s ↦ ok con ])
    path_cases [] is = tt
    path_cases (c ∷ s) is = λ p e. ((λ n. cc (is, e, n)), h p e)

add_host-Kept : (con : Con) → OkAll (Kept con) (add_host con)
unfolding add_host
add_host-Kept con = elim (Option-cases con.reqline_host) [
  | inl n ↦ rw (n, add_host) (refl, refl, refl, λ t. (t, refl))
  | inr (h, is) ↦
      rw (is, add_host)
        (insert_header-Kept (codes "Host") h con _ (refl, refl, refl, λ t. (t, refl)))
]

read_headers-Kept :
    (conf : Conf) (text : Bytes) (rest : Option Bytes) (con : Con)
    → OkAll (Kept con) (read_headers conf text rest con)
unfolding read_headers
read_headers-Kept conf text none con = (refl, refl, refl, λ t. (t, refl))
read_headers-Kept conf text (some rest) con =
    OkAll->>= (λ r. Kept con r.0) (Kept con) (header_loop conf false none (in_key []) con rest) _
      (header_loop-Kept conf false none (in_key []) con rest) (λ r h. h)

abbrev pub Accepted : Conf → Con × Bool → Type 0
Accepted conf r =
    UsableUri r.0
    × Hosted r.0
    × Framed conf r.0
    × (r.1 ≡ (r.0.con_length_set && not (r.0.content_length == 0)))

UsableUri-step : (a b : Con) → UsableUri a → b.uri ≡ a.uri → UsableUri b
UsableUri-step a b h e path is = h path (sym e ∙ is)

request_parse-OkAll :
    (conf : Conf) (n : ℕ) (text : Bytes) (con : Con)
    → con.uri ≡ none
    → OkAll (Accepted conf) (request_parse conf n text con)
unfolding request_parse begin
request_parse-OkAll conf n text con none_yet =
    let t = skip_line_end n text in
    OkAll->>= (λ (r : Con × Option Bytes). ValidUri r.0) (Accepted conf)
      (parse_line conf t (begin con)) _
      (parse_line-ValidUri conf t (begin con) (λ path e. absurd (cc (none_yet, e))))
      (λ line valid.
        OkAll->>= UsableUri (Accepted conf) (check_uri line.0) _ (check_uri-UsableUri line.0 valid)
          (λ con1 h1.
            OkAll->>= (Kept con1) (Accepted conf) (add_host con1) _ (add_host-Kept con1) (λ con2 h2.
              OkAll->>= (Kept con2) (Accepted conf) (read_headers conf t line.1 con2) _
                (read_headers-Kept conf t line.1 con2)
                (λ con3 h3.
                  OkAll-map (Passed conf con3) (Accepted conf) (finish conf con3)
                    (λ r h4.
                      (UsableUri-step con1 r.0 h1 (h4.0.0 ∙ (h3.0 ∙ h2.0)), h4.1, h4.2, h4.3))
                    (finish-Checked conf con3)))))

-- When a request is parsed on a connection whose URI is reset and it is not refused, then its URI, if
-- it has one, is not empty and has no blank, no control character and no byte 127 or 255; HTTP/1.1 has
-- a host, and a host is what the check of host names left; GET and HEAD announce no body, POST
-- announces one; a length that is announced, by whichever method, is below 2 ^ 63 and, where a maximum
-- of `n` kilobytes is configured, below `n + 1` kilobytes; and a body is to be read exactly if its length
-- is announced and not zero.
pub request_parse-Accepted :
    (conf : Conf) (n : ℕ) (text : Bytes) (con con' : Con) (body : Bool)
    → con.uri ≡ none
    → request_parse conf n text con ≡ ok (con', body)
    → Accepted conf (con', body)
request_parse-Accepted conf n text con con' body none_yet is =
    subst (OkAll (Accepted conf)) is (request_parse-OkAll conf n text con none_yet)
