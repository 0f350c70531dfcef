-- ===== src/Cachable/NotModified.antt =====
-- When the status 304 is answered.
use lighttpd_autothumb.Cachable.{
  etag_is_equal, before_semicolon, Answer, goes_on, answered, Request, method_get, method_head,
  date_size, same_date, compare_times, compare_dates, with_etag, handle_cachable,
}
use lighttpd_autothumb.Base.{
  ℕ, ◌≤◌, ◌<◌, ◌≡◌, refl, sym, ap, ◌∙◌, ◌≢◌, ◌↔◌, ◌⊎◌, inl, inr, true, false, ◌||◌, Option, none,
  some, [], ◌∷◌, arith, leb, ◌==◌, leb→le, ==_iff, Bool-cases, Option-cases, length, take,
  take-length, Bytes, equal, equal_iff,
}

-- The date of the header is the text of the file's date, or it is another date, of a length that is
-- read, and the file is not younger.
abbrev pub IsCurrent : (Bytes → Option ℕ) → ℕ → Bytes → Bytes → Type 0
IsCurrent time_of file_time mtime text =
    (mtime ≡ text)
    ⊎ ((take (length text) mtime ≢ text)
        × (length text < date_size)
        × ((t : ℕ) × (time_of text ≡ some t) × (file_time ≤ t)))

abbrev pub IsRead : ℕ → Type 0
IsRead m = (m ≡ method_get) ⊎ (m ≡ method_head)

-- The entity tag of the request, if it has one, is the file's, and the request reads; and the date, if
-- it has one, is current. One of the two is there.
abbrev pub NotModified : (Bytes → Option ℕ) → ℕ → Option Bytes → Bytes → Request → Type 0
NotModified time_of file_time etag mtime request = elim request.if_none_match [
  | some matches ↦
      (etag ≡ some matches) × IsRead request.http_method × elim request.if_modified_since [
        | some date ↦ IsCurrent time_of file_time mtime (before_semicolon date)
        | none ↦ Unit {0}
      ]
  | none ↦ elim request.if_modified_since [
    | some date ↦ IsCurrent time_of file_time mtime (before_semicolon date)
    | none ↦ ⊥
  ]
]

take-all :
    (text mtime : Bytes)
    → take (length text) mtime ≡ text
    → length text ≡ length mtime
    → mtime ≡ text
take-all [] [] e l = refl
take-all [] (d ∷ m) e l = absurd (omega (arith, l))
take-all (c ∷ t) [] e l = absurd (omega (arith, l))
take-all (c ∷ t) (d ∷ m) e l = cc (e, take-all t m (cc (e)) (omega (arith, l)))

module _ (unreadable : Answer) (time_of : Bytes → Option ℕ) (file_time : ℕ)
    (mtime text : Bytes) where
  same-IsCurrent :
      take (length text) mtime ≡ text
      → (same_date text mtime ≡ answered (some 304)) ↔ IsCurrent time_of file_time mtime text
  same-IsCurrent e = (
    (λ h. inl (
        take-all text mtime e (elim (Bool-cases (length text == length mtime)) [
          | inl t ↦ (==_iff (length text) (length mtime)).0 t
          | inr f ↦ ground (arith, f, h)
        ]))),
    (λ k. elim k [
      | inl m ↦ rw (m, (==_iff (length text) (length text)).1 refl) refl
      | inr n ↦ absurd (n.0 e)
    ]),
  )

  later-IsCurrent :
      take (length text) mtime ≢ text
      → (t : ℕ) → length text < date_size
      → time_of text ≡ some t
      → (compare_times file_time t ≡ answered (some 304)) ↔ IsCurrent time_of file_time mtime text
  later-IsCurrent ne t short e = (
    (λ h. inr (ne, short, (t, e, ground (arith, h)))),
    (λ k. elim k [
      | inl m ↦ absurd (ne (ap (take (length text)) m ∙ take-length text))
      | inr n ↦ reached n.2
    ]),
  )
    where
      reached :
          (x : ℕ) × (time_of text ≡ some x) × (file_time ≤ x)
          → compare_times file_time t ≡ answered (some 304)
      reached (x, ex, le) = let same : some t ≡ some x = sym e ∙ ex in ground (arith, same, le)

  -- No date is read from the text.
  unread-IsCurrent :
      unreadable ≢ answered (some 304)
      → take (length text) mtime ≢ text
      → (date_size ≤ length text) ⊎ (time_of text ≡ none)
      → (unreadable ≡ answered (some 304)) ↔ IsCurrent time_of file_time mtime text
  unread-IsCurrent u ne o = (
    (λ h. absurd (u h)),
    (λ k. elim k [
      | inl m ↦ absurd (ne (ap (take (length text)) m ∙ take-length text))
      | inr n ↦ absurd (elim o [ inl l ↦ omega (arith, l, n.1) | inr e ↦ cc (e, n.2.1) ])
    ]),
  )

  along :
      (a : Answer)
      → compare_dates unreadable time_of file_time mtime text ≡ a
      → (a ≡ answered (some 304)) ↔ IsCurrent time_of file_time mtime text
      → (compare_dates unreadable time_of file_time mtime text ≡ answered (some 304))
        ↔ IsCurrent time_of file_time mtime text
  along a e p = ((λ h. p.0 (sym e ∙ h)), (λ k. e ∙ p.1 k))

  compare-IsCurrent :
      unreadable ≢ answered (some 304)
      → (compare_dates unreadable time_of file_time mtime text ≡ answered (some 304))
        ↔ IsCurrent time_of file_time mtime text
  unfolding compare_dates
  compare-IsCurrent u = elim (Bool-cases (equal (take (length text) mtime) text)) [
    | inl t ↦ rw t (same-IsCurrent ((equal_iff _ _).0 t))
    | inr f ↦
        let ne : take (length text) mtime ≢ text =
          λ e. cc (f, (equal_iff (take (length text) mtime) text).1 e) in
        elim (Bool-cases (leb date_size (length text))) [
          | inl l ↦
              along unreadable (rw (f, l) refl)
                (unread-IsCurrent u ne (inl (leb→le date_size (length text) l)))
          | inr l ↦ elim (Option-cases (time_of text)) [
            | inl e ↦ along unreadable (rw (f, l, e) refl) (unread-IsCurrent u ne (inr e))
            | inr (t, e) ↦
                along (compare_times file_time t) (rw (f, l, e) refl)
                  (later-IsCurrent ne t (ground (arith, l)) e)
          ]
        ]
  ]

reads : (m : ℕ) → IsRead m → (m == method_get || m == method_head) ≡ true
reads m (inl e) = rw e refl
reads m (inr e) = rw e refl

unread : (m : ℕ) → (IsRead m) ⊎ ((m == method_get || m == method_head) ≡ false)
unread m = elim (Bool-cases (m == method_get)) [
  | inl t ↦ inl (inl ((==_iff m method_get).0 t))
  | inr f ↦ elim (Bool-cases (m == method_head)) [
    | inl t ↦ inl (inr ((==_iff m method_head).0 t))
    | inr g ↦ inr (rw (f, g) refl)
  ]
]

etag_iff :
    (etag : Option Bytes) (matches : Bytes)
    → (etag_is_equal etag matches ≡ true) ↔ (etag ≡ some matches)
unfolding etag_is_equal
etag_iff none matches = ((λ h. cc h), (λ k. cc k))
etag_iff (some e) matches =
    ((λ h. ap some ((equal_iff e matches).0 h)), (λ k. (equal_iff e matches).1 (cc (k))))

module _ (time_of : Bytes → Option ℕ) (file_time : ℕ) (etag : Option Bytes) (mtime : Bytes) where
  dated :
      (m : ℕ) (matches : Option Bytes) (date : Option Bytes)
      → IsRead m
      → (with_etag time_of file_time mtime
            (record { http_method = m; if_none_match = matches; if_modified_since = date })
          ≡ answered (some 304))
        ↔ elim date [
          | some d ↦ IsCurrent time_of file_time mtime (before_semicolon d)
          | none ↦ Unit {0}
        ]
  unfolding with_etag
  dated m matches none r = rw (reads m r) ((λ h. tt), (λ k. refl))
  dated m matches (some d) r = rw (reads m r) (
      compare-IsCurrent (answered (some 412)) time_of file_time mtime (before_semicolon d)
        (λ e. ground (arith, e)))

  tagged :
      (m : ℕ) (matches : Bytes) (date : Option Bytes)
      → let request : Request = record {
        http_method = m;
        if_none_match = some matches;
        if_modified_since = date;
      } in
        (with_etag time_of file_time mtime request ≡ answered (some 304)) → IsRead m
  unfolding with_etag
  tagged m matches date h = elim (unread m) [
    | inl r ↦ r
    | inr f ↦ absurd (ground (arith, (rw f at h)))
  ]

  -- The status 304 is answered exactly if the request has an entity tag or a date, the tag, if there is
  -- one, is the file's and the method GET or HEAD, and the date, if there is one, is the text of the
  -- file's date, or does not begin that text, is shorter than 30 bytes, can be read, and is not before
  -- the file's.
  pub handle_cachable-NotModified :
      (request : Request)
      → (handle_cachable time_of file_time etag mtime request ≡ answered (some 304))
        ↔ NotModified time_of file_time etag mtime request
  unfolding handle_cachable
  handle_cachable-NotModified request =
      go request.http_method request.if_none_match request.if_modified_since
    where
      go :
          (m : ℕ) (matches date : Option Bytes)
          → (handle_cachable time_of file_time etag mtime
                (record { http_method = m; if_none_match = matches; if_modified_since = date })
              ≡ answered (some 304))
            ↔ NotModified time_of file_time etag mtime
                (record { http_method = m; if_none_match = matches; if_modified_since = date })
      go m none none = ((λ h. cc h), (λ k. absurd k))
      go m none (some date) =
          compare-IsCurrent goes_on time_of file_time mtime (before_semicolon date) (λ e. cc e)
      go m (some matches) date = elim (Bool-cases (etag_is_equal etag matches)) [
        | inl t ↦
            let e = (etag_iff etag matches).0 t in
            rw t (
              (λ h. let r = tagged m matches date h in (e, r, (dated m (some matches) date r).0 h)),
              (λ k. (dated m (some matches) date k.1).1 k.2),
            )
        | inr f ↦ rw f ((λ h. cc h), (λ k. cc (f, (etag_iff etag matches).1 k.0)))
      ]
