-- ===== src/StaticFile/Allowed.antt =====
-- For which requests the handler of static files queues something, and what.
use lighttpd_autothumb.CString.{strchr}
use lighttpd_autothumb.ChunkQueue.Content.{content}
use lighttpd_autothumb.Cachable.{Answer, goes_on, answered}
use lighttpd_autothumb.Uri.{HandlerResult}
use lighttpd_autothumb.StaticFile.Growth.{Grown, GrownCon, serve_for-Grown}
use lighttpd_autothumb.StaticFile.{
  Conf, Stat, Con, is_excluded, set_content_type, set_accept_ranges, mutate_etag, set_etag,
  set_last_modified, serve, take_answer, validate, handle_file, check_file, is_handled, is_nil,
  subrequest,
}
use lighttpd_autothumb.ResponseHeaders.{get_header}
use lighttpd_autothumb.Base.{
  ℕ, ◌^◌, ◌≤◌, ◌≡◌, refl, sym, ap, ◌∙◌, ◌≢◌, ◌⊎◌, inl, inr, Bool, true, false, not, ◌&&◌, ◌||◌,
  Option, none, some, [], append-nil, arith, ◌==◌, Option-cases, Bytes, codes, if_cases,
}

-- The setting of headers leaves the queue, the path and the range alone.
abbrev Kept : Con → Con → Type 0
Kept con con' =
    (con'.queue ≡ con.queue) × (con'.path ≡ con.path) × (con'.http_range ≡ con.http_range)

Kept-type : (sce : Stat) (con : Con) → Kept con (set_content_type sce con).1
unfolding set_content_type
Kept-type sce con = elim (Option-cases (get_header (codes "Content-Type") con.headers)) [
  | inr (v, e) ↦ rw (e, set_content_type) (refl, refl, refl)
  | inl e ↦ chosen sce.content_type e
]
  where
    chosen :
        (t : Option Bytes)
        → get_header (codes "Content-Type") con.headers ≡ none
        → Kept con (set_content_type (record sce { content_type = t }) con).1
    chosen none e = rw (e, set_content_type) (refl, refl, refl)
    chosen (some t) e = rw (e, set_content_type) (refl, refl, refl)

Kept-ranges : (conf : Conf) (con : Con) → Kept con (set_accept_ranges conf con)
unfolding set_accept_ranges
Kept-ranges conf con =
    if_cases (Kept con) conf.range_requests _ con (λ t. (refl, refl, refl))
      (λ t. (refl, refl, refl))

Kept-mutated : (etag : Option Bytes) (con : Con) → Kept con (mutate_etag etag con)
unfolding mutate_etag
Kept-mutated none con = (refl, refl, refl)
Kept-mutated (some etag) con = elim (Option-cases (get_header (codes "ETag") con.headers)) [
  | inl e ↦ rw (e, mutate_etag) (refl, refl, refl)
  | inr (v, e) ↦ rw (e, mutate_etag) (refl, refl, refl)
]

Kept-etag : (conf : Conf) (sce : Stat) (con : Con) → Kept con (set_etag conf sce con)
unfolding set_etag
Kept-etag conf sce con =
    if_cases (Kept con) (conf.etags_used && not (conf.etag_flags == 0)) _ con
      (λ t. Kept-mutated sce.etag con) (λ t. (refl, refl, refl))

Kept-modified : (date : Bytes) (con : Con) → Kept con (set_last_modified date con).1
unfolding set_last_modified
Kept-modified date con = elim (Option-cases (get_header (codes "Last-Modified") con.headers)) [
  | inl e ↦ rw (e, set_last_modified) (refl, refl, refl)
  | inr (v, e) ↦ rw (e, set_last_modified) (refl, refl, refl)
]

Kept-trans : (a b c : Con) → Kept a b → Kept b c → Kept a c
Kept-trans a b c k l = (l.0 ∙ k.0, l.1 ∙ k.1, l.2 ∙ k.2)

-- The value of the Range header, if there is one, has a minus.
abbrev pub RangeHasMinus : Option Bytes → Type 0
RangeHasMinus range = (r : Bytes) → range ≡ some r → strchr b'-' r ≢ none

module _ (conf : Conf) (sce : Stat) (path : Bytes) (con : Con) (named : con.path ≡ some path)
    (fits : sce.size ≤ 2 ^ 63) (minus : RangeHasMinus con.http_range) where
  served :
      (mtime : Option Bytes) (con' : Con)
      → Kept con con'
      → GrownCon path sce.size con.queue (serve conf sce mtime con').1
  unfolding serve
  served mtime con' k =
      serve_for-Grown path sce.size con.queue conf sce mtime con'.http_range con' refl (k.1 ∙ named)
        k.0 fits (λ r e. minus r (sym k.2 ∙ e))

  answer-Grown :
      (answer : Answer) (mtime : Option Bytes) (con' : Con)
      → Kept con con'
      → GrownCon path sce.size con.queue (take_answer answer (serve conf sce mtime) con').1
  answer-Grown goes_on mtime con' k = served mtime con' k
  answer-Grown (answered none) mtime con' k =
      ([], ap content k.0 ∙ sym (append-nil (content con.queue)), tt)
  answer-Grown (answered (some status)) mtime con' k =
      ([], ap content k.0 ∙ sym (append-nil (content con.queue)), tt)

  handle_file-Grown :
      (time_of : Bytes → Option ℕ) (file_time : ℕ) (date : Bytes)
      → GrownCon path sce.size con.queue (handle_file conf sce time_of file_time date con).1
  unfolding handle_file validate
  handle_file-Grown time_of file_time date =
      let typed = (set_content_type sce con).1 in
      let con1 = set_accept_ranges conf typed in
      let con2 = set_etag conf sce con1 in
      let k1 = Kept-trans con typed con1 (Kept-type sce con) (Kept-ranges conf typed) in
      let k2 = Kept-trans con con1 con2 k1 (Kept-etag conf sce con1) in
      let k3 = Kept-trans con con2 (set_last_modified date con2).1 k2 (Kept-modified date con2) in
      if_cases (λ (o : HandlerResult × Con). GrownCon path sce.size con.queue o.1)
        (set_content_type sce con).0 _ _ (λ t. answer-Grown _ _ (set_last_modified date con2).1 k3)
        (λ f. served none con1 k1)

-- What the handler asks for before it serves a file.
abbrev pub IsAllowed : Conf → Option Stat → Con → Bytes → Stat → Type 0
IsAllowed conf stat con path sce =
    (con.http_status ≡ 0)
    × (con.direct ≡ true)
    × (is_handled con.request.http_method ≡ true)
    × (con.path ≡ some path)
    × (is_excluded conf.exclude_ext con.path ≡ false)
    × (stat ≡ some sce)
    × (sce.is_regular ≡ true)
    × ((sce.is_symlink ≡ false) ⊎ (conf.follow_symlink ≡ true))

-- Nothing is queued; or the request and the file are as asked for, and what is queued are texts and
-- spans of the file of that path.
abbrev pub Outcome : Conf → Option Stat → Con → Con → Type 0
Outcome conf stat con con' =
    (con'.queue ≡ con.queue)
    ⊎ ((path : Bytes) × (sce : Stat) × IsAllowed conf stat con path sce
        × Grown path sce.size (content con.queue) con'.queue)

module _ (conf : Conf) (con : Con) (path : Bytes) (time_of : Bytes → Option ℕ) (file_time : ℕ)
    (date : Bytes) where
  check_file-Outcome :
      (stat : Option Stat)
      → con.http_status ≡ 0
      → con.direct ≡ true
      → is_handled con.request.http_method ≡ true
      → con.path ≡ some path
      → is_excluded conf.exclude_ext con.path ≡ false
      → ((sce : Stat) → stat ≡ some sce → sce.size ≤ 2 ^ 63)
      → RangeHasMinus con.http_range
      → Outcome conf stat con (check_file conf stat time_of file_time date con).1
  unfolding check_file
  check_file-Outcome none s d m p x fits minus = inl refl
  check_file-Outcome (some sce) s d m p x fits minus =
      let P = λ (o : HandlerResult × Con). Outcome conf (some sce) con o.1 in
      if_cases P (sce.is_symlink && not conf.follow_symlink) _ _ (λ t. inl refl)
        (λ l.
          if_cases P (not sce.is_regular) _ _ (λ t. inl refl)
            (λ r. inr (
              path,
              sce,
              (
                s,
                d,
                m,
                p,
                x,
                refl,
                regular sce.is_regular r,
                followed sce.is_symlink conf.follow_symlink l,
              ),
              handle_file-Grown conf sce path con p (fits sce refl) minus time_of file_time date,
            )))
    where
      regular : (b : Bool) → not b ≡ false → b ≡ true
      regular true e = refl
      regular false e = cc e

      followed : (b c : Bool) → (b && not c) ≡ false → (b ≡ false) ⊎ (c ≡ true)
      followed true true e = inr refl
      followed true false e = cc e
      followed false c e = inl refl

-- For a file of at most 2 ^ 63 bytes, and a range, if there is one, with a minus: either the queue is
-- left as it is; or nothing is decided for the request yet, its method is GET, POST or HEAD, the
-- extension of its path is not excluded, and the entry is a regular file and no symbolic link that is
-- not followed, and then the texts and spans that are put behind the queue read that file only, inside
-- its size.
pub subrequest-Outcome :
    (conf : Conf) (stat : Option Stat) (time_of : Bytes → Option ℕ) (file_time : ℕ) (date : Bytes)
    (con : Con)
    → ((sce : Stat) → stat ≡ some sce → sce.size ≤ 2 ^ 63)
    → RangeHasMinus con.http_range
    → Outcome conf stat con (subrequest conf stat time_of file_time date con).1
unfolding subrequest
subrequest-Outcome conf stat time_of file_time date con fits minus =
    let P = λ (o : HandlerResult × Con). Outcome conf stat con o.1 in
    if_cases P (not (con.http_status == 0)) _ _ (λ t. inl refl)
      (λ s.
        if_cases P (is_nil con.uri_path || is_nil con.path) _ _ (λ t. inl refl)
          (λ n.
            if_cases P (not con.direct || not (is_handled con.request.http_method)) _ _
              (λ t. inl refl)
              (λ d.
                if_cases P (is_excluded conf.exclude_ext con.path) _ _ (λ t. inl refl)
                  (λ x. elim (Option-cases con.path) [
                    | inl e ↦ absurd (no_path con.uri_path con.path e n)
                    | inr (path, e) ↦
                        check_file-Outcome conf con path time_of file_time date stat
                          (ground (arith, s))
                          (both con.direct (is_handled con.request.http_method) d).0
                          (both con.direct (is_handled con.request.http_method) d).1 e x fits minus
                  ]))))
  where
    no_path : (u p : Option Bytes) → p ≡ none → (is_nil u || is_nil p) ≡ false → ⊥
    no_path none p e h = cc h
    no_path (some u) none e h = cc h
    no_path (some u) (some p) e h = cc e

    both : (b c : Bool) → (not b || not c) ≡ false → (b ≡ true) × (c ≡ true)
    both true true h = (refl, refl)
    both true false h = cc h
    both false c h = cc h
