-- ===== src/Response/Clean.antt =====
-- The file that a request is mapped to lies below the document root.
use mathlib.Core.Path.{subst}
use lighttpd_autothumb.Uri.{
  HandlerResult, unset, go_on, finished, comeback, wait_for_event, error, wait_for_fd, lower,
}
use lighttpd_autothumb.UrlDecode.{urldecode_path}
use lighttpd_autothumb.PathSimplify.{Simplified, path_simplify}
use lighttpd_autothumb.PathSimplify.Refines.{AreBytes, Holds, source_path, path_simplify-resolve}
use lighttpd_autothumb.PathSimplify.Spec.{render, split}
use lighttpd_autothumb.PathSimplify.Clean.{
  IsClean, IsStack, resolved, resolved-IsStack, path_simplify-IsClean,
}
use lighttpd_autothumb.Buffer.Memory.{take-length_append}
use lighttpd_autothumb.Plugin.{plugins_call, plugins_call-kept}
use lighttpd_autothumb.Response.Lower.{lower-IsClean}
use lighttpd_autothumb.Response.{
  Conf, Con, Plugin, Plugins, Flow, next, done, ◌>>=◌, switch, call, cut_at, prepare_strings,
  raw_stage, clean_stage, root_stage, physical_stage, method_options, star, simplified_text,
  clean_uri, downgrade, answer_options, set_doc_root, append_slash, lower_rel_path, set_physical,
  build_path,
}
use lighttpd_autothumb.Base.{
  ◌-◌, ◌≡◌, refl, sym, ap, ◌∙◌, ◌≢◌, Bool, true, false, ◌&&◌, some, List, [], ◌∷◌, ◌++◌, map, arith,
  ◌==◌, if◌then◌else◌, length, Bytes, equal, All, All-map, if_cases,
}

-- Each plugin of a slot leaves a field as it is.
abbrev pub Keep {ℓ} : {A : Type ℓ} → (Con → A) → List Plugin → Type ℓ
Keep field plugins = All (λ (p : Plugin). (con : Con) → field (p con).1 ≡ field con) plugins

-- The plugins may set the document root, answer the request or change other parts of it, but the URI's
-- path goes from one slot to the next.
abbrev pub LeavePath : Plugins → Type 0
LeavePath plugins =
    Keep (λ con. con.path_raw) plugins.uri_raw
    × Keep (λ con. con.uri_path) plugins.uri_clean
    × Keep (λ con. con.rel_path) plugins.docroot
    × Keep (λ con. con.path) plugins.physical

bind-next :
    (m : Flow) (f : Con → Flow) (c : Con)
    → (m >>= f) ≡ next c
    → (a : Con) × (m ≡ next a) × (f a ≡ next c)
bind-next (next a) f c h = (a, refl, h)
bind-next (done r a) f c h = cc h

switch-next : (r : HandlerResult) (con c : Con) → switch r con ≡ next c → con ≡ c
unfolding switch
switch-next go_on con c h = cc h
switch-next unset con c h = cc h
switch-next wait_for_fd con c h = cc h
switch-next finished con c h = cc h
switch-next comeback con c h = cc h
switch-next wait_for_event con c h = cc h
switch-next error con c h = cc h

-- A slot that goes on has left the field as it was.
call-Keep :
    {A : Type 0} (field : Con → A) (plugins : List Plugin) (con c : Con)
    → Keep field plugins
    → call plugins con ≡ next c
    → field c ≡ field con
unfolding call
call-Keep field plugins con c k h =
    let e = switch-next (plugins_call plugins con).0 (plugins_call plugins con).1 c h in
    ap field (sym e)
    ∙ plugins_call-kept (λ (t : Con). field t ≡ field con) plugins con
        (All-map (λ (p : Plugin). (t : Con) → field (p t).1 ≡ field t) _ plugins
          (λ p q t e. q t ∙ e) k)
        refl

-- The first plugins see a text; what is cleaned is what they have left.
text-Holds : (d : Simplified) (text : Bytes) → Holds d text → simplified_text d ≡ text
text-Holds d text h =
    let n : d.used - 1 ≡ length text = omega (arith, h.1) in
    rw (n, h.0) (take-length_append text (0 ∷ []))

-- A path of segments begins with a slash.
render_slash : (g : Bytes) (st : List Bytes) → (t : Bytes) × (render (g ∷ st) ≡ b'/' ∷ t)
unfolding render
render_slash g [] = (g, refl)
render_slash g (h ∷ st) = let (t, e) = render_slash h st in (t ++ b'/' ∷ g, rw e refl)

from_stack : (st : List Bytes) → IsStack st → (t : Bytes) × (render st ≡ b'/' ∷ t)
from_stack [] i = absurd i
from_stack (g ∷ st) i = render_slash g st

-- What is behind the first `?` and the first `#` is no part of the path.
abbrev pub raw_path : Bytes → Bytes
raw_path uri = (cut_at b'?' (cut_at b'#' uri).0).0

abbrev pub decoded : Bytes → Bytes
decoded uri = urldecode_path (raw_path uri)

behind-IsClean : (text rel : Bytes) → text ≡ b'/' ∷ rel → IsClean text → IsClean rel
unfolding split
behind-IsClean text rel e clean = (rw e at clean).1

-- The path of a decoded text that is not empty: a slash, and a clean text.
simplified-IsClean :
    (source : Bytes)
    → AreBytes source
    → source_path source ≢ []
    → (rel : Bytes) × (simplified_text (path_simplify source) ≡ b'/' ∷ rel) × IsClean rel
simplified-IsClean source b ne =
    let h = path_simplify-resolve source b ne in
    let (rel, e) = from_stack (resolved source) (resolved-IsStack source b ne) in
    (
      rel,
      text-Holds (path_simplify source) (render (resolved source)) h ∙ e,
      behind-IsClean _ rel e (path_simplify-IsClean source (render (resolved source)) b ne h),
    )

-- The path that the file system is asked for: a document root, of those that `IsRoot` has, and below it
-- the text of the URI behind its first slash, in lower case where file names are.
abbrev pub Below : (Bytes → Type 0) → Conf → Bytes → Con → Type 0
Below IsRoot conf rel con =
    (root : Bytes) × IsRoot root
    × (con.path
        ≡ some
            (append_slash root ++ (if conf.force_lowercase_filenames then map lower rel else rel)))

-- Each plugin of the slot leaves a root of `IsRoot`, where it is given one.
abbrev pub KeepsRoot : (Bytes → Type 0) → List Plugin → Type 0
KeepsRoot IsRoot plugins =
    All (λ (p : Plugin). (con : Con) → IsRoot con.doc_root → IsRoot (p con).1.doc_root) plugins

physical-Below :
    (IsRoot : Bytes → Type 0) (conf : Conf) (con : Con) (rel : Bytes)
    → IsRoot con.doc_root
    → con.rel_path ≡ b'/' ∷ rel
    → Below IsRoot conf rel (set_physical (lower_rel_path conf con))
unfolding set_physical lower_rel_path lower
physical-Below IsRoot conf con rel root e = lowered conf.force_lowercase_filenames
  where
    lowered :
        (b : Bool)
        → (r : Bytes) × IsRoot r
          × ((set_physical
                (if b then record con { rel_path = map lower con.rel_path } else con)).path
              ≡ some (append_slash r ++ (if b then map lower rel else rel)))
    lowered true = (con.doc_root, root, rw e refl)
    lowered false = (con.doc_root, root, rw e refl)

and_false : (b c : Bool) → c ≡ false → (b && c) ≡ false
and_false true c e = e
and_false false c e = refl

cleaned_uri :
    (con : Con)
    → equal con.path_raw star ≡ false
    → (clean_uri con).uri_path ≡ simplified_text (path_simplify (urldecode_path con.path_raw))
unfolding clean_uri
cleaned_uri con n =
    rw (and_false (con.http_method == method_options) (equal con.path_raw star) n) refl

next_else :
    (b : Bool) (r : HandlerResult) (x con c : Con)
    → (if b then done r x else next con) ≡ next c
    → con ≡ c
next_else true r x con c h = cc h
next_else false r x con c h = cc h

options-kept : (con c : Con) → answer_options con ≡ next c → con ≡ c
unfolding answer_options
options-kept con c h = next_else _ _ _ con c h

module _ (plugins : Plugins) (conf : Conf) (keep : LeavePath plugins) where
  raw-kept :
      (con c : Con) → raw_stage plugins conf con ≡ next c → c.path_raw ≡ raw_path con.request_uri
  unfolding raw_stage prepare_strings
  raw-kept con c h =
      call-Keep (λ t. t.path_raw) plugins.uri_raw (prepare_strings conf con) c keep.0 h

  clean-kept :
      (con c : Con)
      → equal con.path_raw star ≡ false
      → clean_stage plugins conf con ≡ next c
      → c.uri_path ≡ simplified_text (path_simplify (urldecode_path con.path_raw))
  unfolding clean_stage downgrade
  clean-kept con c n h =
      call-Keep (λ t. t.uri_path) plugins.uri_clean (downgrade conf (clean_uri con)) c keep.1 h
      ∙ cleaned
    where
      cleaned :
          (downgrade conf (clean_uri con)).uri_path
          ≡ simplified_text (path_simplify (urldecode_path con.path_raw))
      cleaned =
          if_cases
            (λ (t : Con).
              t.uri_path ≡ simplified_text (path_simplify (urldecode_path con.path_raw)))
            conf.allow_http11 (clean_uri con) _ (λ t. cleaned_uri con n) (λ t. cleaned_uri con n)

  root-kept : (con c : Con) → root_stage plugins conf con ≡ next c → c.rel_path ≡ con.uri_path
  unfolding root_stage set_doc_root
  root-kept con c h = call-Keep (λ t. t.rel_path) plugins.docroot (set_doc_root conf con) c keep.2 h

  physical-kept :
      (IsRoot : Bytes → Type 0) (rel : Bytes) (con c : Con)
      → physical_stage plugins conf con ≡ next c
      → Below IsRoot conf rel (set_physical (lower_rel_path conf con))
      → Below IsRoot conf rel c
  unfolding physical_stage
  physical-kept IsRoot rel con c h (root, is, e) = (
    root,
    is,
    call-Keep (λ t. t.path) plugins.physical (set_physical (lower_rel_path conf con)) c keep.3 h
        ∙ e,
  )

  -- The root that the plugins of the slot leave.
  root-IsRoot :
      (IsRoot : Bytes → Type 0) (con c : Con)
      → IsRoot conf.document_root
      → KeepsRoot IsRoot plugins.docroot
      → root_stage plugins conf con ≡ next c
      → IsRoot c.doc_root
  unfolding root_stage set_doc_root call
  root-IsRoot IsRoot con c configured keeps h =
      let placed = set_doc_root conf con in
      subst (λ t. IsRoot t.doc_root)
        (switch-next (plugins_call plugins.docroot placed).0 (plugins_call plugins.docroot placed).1
          c h)
        (plugins_call-kept (λ t. IsRoot t.doc_root) plugins.docroot placed keeps configured)

  -- Where the plugins of each slot leave the part of the path alone that the next step works on, the
  -- configured document root is one of those that `IsRoot` has, the plugins that set the root leave one
  -- of those, the URI's path is not `*`, and it decodes to bytes that are not blanks only: if the
  -- request is not answered while the path is built, the path is such a root, with a slash behind it
  -- unless it is empty or ends in one, and behind it the decoded and simplified path without its first
  -- slash, in lower case where file names are; and this has no segment `.` or `..`.
  pub build_path-Below :
      (IsRoot : Bytes → Type 0) (con con' : Con)
      → IsRoot conf.document_root
      → KeepsRoot IsRoot plugins.docroot
      → AreBytes (decoded con.request_uri)
      → source_path (decoded con.request_uri) ≢ []
      → equal (raw_path con.request_uri) star ≡ false
      → build_path plugins conf con ≡ next con'
      → (rel : Bytes) × (simplified_text (path_simplify (decoded con.request_uri)) ≡ b'/' ∷ rel)
        × Below IsRoot conf rel con'
        × IsClean rel
        × IsClean (map lower rel)
  unfolding build_path
  build_path-Below IsRoot con con' configured keeps b ne not_star h =
      let s1 = raw_stage plugins conf con in
      let s2 = s1 >>= clean_stage plugins conf in
      let s3 = s2 >>= answer_options in
      let s4 = s3 >>= root_stage plugins conf in
      let (c4, m4, h4) = bind-next s4 (physical_stage plugins conf) con' h in
      let (c3, m3, h3) = bind-next s3 (root_stage plugins conf) c4 m4 in
      let (c2, m2, h2) = bind-next s2 answer_options c3 m3 in
      let (c1, m1, h1) = bind-next s1 (clean_stage plugins conf) c2 m2 in
      let raw = raw-kept con c1 m1 in
      let (rel, e, clean) = simplified-IsClean (decoded con.request_uri) b ne in
      let uri = clean-kept c1 c2 (ap (λ t. equal t star) raw ∙ not_star) h1 in
      let same = options-kept c2 c3 h2 in
      let placed =
        root-kept c3 c4 h3
        ∙ ap (λ (t : Con). t.uri_path) (sym same)
        ∙ uri
        ∙ ap (λ t. simplified_text (path_simplify (urldecode_path t))) raw
        ∙ e in
      (
        rel,
        e,
        physical-kept IsRoot rel c4 con' h4 (
            physical-Below IsRoot conf c4 rel (root-IsRoot IsRoot c3 c4 configured keeps h3)
              placed),
        clean,
        lower-IsClean rel clean,
      )
