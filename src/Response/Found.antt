-- ===== src/Response/Found.antt =====
-- What the path of a request is when the modules get to handle it.
use lighttpd_autothumb.Uri.{finished}
use lighttpd_autothumb.Response.{
  Conf, Con, Flow, next, done, last_or, SocketName, refuse_path, is_refused, check_entry, is_nil,
  set_pathinfo, take_found, check_stat, text_of, check_path,
}
use lighttpd_autothumb.Response.PathInfo.{
  Stat, StatResult, entry, eacces, enoent, enotdir, other_error, find_file,
}
use lighttpd_autothumb.Response.PathInfo.Longest.{Longest, IsCut, find_file-Longest}
use lighttpd_autothumb.Base.{
  ℕ, zero, suc, ◌-◌, ◌≤◌, ◌<◌, ◌≡◌, refl, sym, ap, ◌∙◌, ◌≢◌, ◌⊎◌, inl, inr, Bool, true, false, not,
  ◌&&◌, Option, none, some, [], ◌∷◌, ◌++◌, append-nil, arith, ◌==◌, length, length-append,
  get_elem?-bound, take, drop, take-append-drop, drop-length, length-take, length-drop, Bytes,
  if_cases,
}

-- The whole path is an entry; or it is split, in front of a slash behind the base, into the path of a
-- regular file and the rest, and the path of the URI is split in the same way.
abbrev pub Split : Con → Con → Stat → Bytes → Bytes → Type 0
Split con con' sce front info =
    ((info ≡ []) × (con'.pathinfo ≡ con.pathinfo) × (con'.uri_path ≡ con.uri_path))
    ⊎ ((sce.is_regular ≡ true)
        × (length con.basedir ≤ length front)
        × (con'.pathinfo ≡ info)
        × (con'.uri_path ++ info ≡ con.uri_path))

-- Where the request goes on, its path names an entry, and no symbolic link that is not followed; where
-- it does not, the request is finished.
abbrev pub Found : Conf → (Bytes → StatResult) → Con → Flow → Type 0
Found conf stat con (done r con') = r ≡ finished
Found conf stat con (next con') =
    (front : Bytes) × (info : Bytes) × (sce : Stat) × (con'.path ≡ some front)
    × (stat front ≡ entry sce)
    × (is_refused conf sce ≡ false)
    × (text_of con.path ≡ front ++ info)
    × Split con con' sce front info

drop-behind : (xs ys : Bytes) (n : ℕ) → length xs ≤ n → drop n (xs ++ ys) ≡ drop (n - length xs) ys
drop-behind [] ys n h = let e : n - 0 ≡ n = omega arith in rw e refl
drop-behind (x ∷ xs) ys zero h = absurd (omega arith)
drop-behind (x ∷ xs) ys (suc n) h =
    let e : suc n - suc (length xs) ≡ n - length xs = omega arith in
    rw e (drop-behind xs ys n (omega arith))

-- The rest of the path is the end of the URI's path.
uri_split :
    (basedir rel : Bytes) (n : ℕ)
    → length basedir ≤ n
    → n ≤ length (basedir ++ rel)
    → let u = b'/' ∷ rel in
      let info = drop n (basedir ++ rel) in take (length u - length info) u ++ info ≡ u
uri_split basedir rel n h le =
    let k = n - length basedir in
    let e : drop n (basedir ++ rel) ≡ drop k rel = drop-behind basedir rel n h in
    let count : suc (length rel) - length (drop k rel) ≡ suc k =
      omega (arith, length-drop k rel, length-append basedir rel) in
    rw (e, count) (ap (◌∷◌ b'/') (take-append-drop k rel))

not_nil : (s : Bytes) → is_nil s ≡ false → s ≢ []
not_nil [] h e = cc h
not_nil (c ∷ s) h e = cc e

not-false : (b : Bool) → not b ≡ false → b ≡ true
not-false true h = refl
not-false false h = cc h

nil : (s : Bytes) → is_nil s ≡ true → s ≡ []
nil [] h = refl
nil (c ∷ s) h = cc h

cut-le : (p : Bytes) (n : ℕ) → IsCut p n → n ≤ length p
cut-le p n (inl e) = omega (arith, e)
cut-le p n (inr e) = omega (arith, get_elem?-bound p n b'/' e)

module _ (conf : Conf) (stat : Bytes → StatResult) (con : Con) where
  entry-Found :
      (name : SocketName) (sce : Stat) (p : Bytes)
      → con.path ≡ some p
      → stat p ≡ entry sce
      → Found conf stat con (check_entry conf name sce con)
  unfolding check_entry
  entry-Found name sce p e st =
      if_cases (Found conf stat con) (is_refused conf sce) (refuse_path 403 con) _ (λ t. refl)
        (λ f.
          if_cases (Found conf stat con) (sce.is_directory && not (last_or 0 con.uri_path == b'/'))
            _ (next con) (λ t. refl)
            (λ g.
              (p, [], sce, e, st, f, ap text_of e ∙ sym (append-nil p), inl (refl, refl, refl))))

  set_path : (front info : Bytes) → (set_pathinfo front info con).path ≡ some front
  unfolding set_pathinfo
  set_path front info =
      if_cases (λ (c : Con). c.path ≡ some front) (is_nil info) _ _ (λ t. refl) (λ f. refl)

  module _ (p rel : Bytes) (placed : p ≡ con.basedir ++ rel)
      (from_root : con.uri_path ≡ b'/' ∷ rel) where
    set-Split :
        (front info : Bytes) (sce : Stat) (n : ℕ)
        → front ≡ take n p
        → info ≡ drop n p
        → IsCut p n
        → (n ≡ length p) ⊎ (length con.basedir ≤ n)
        → sce.is_regular ≡ true
        → Split con (set_pathinfo front info con) sce front info
    unfolding set_pathinfo
    set-Split front info sce n f i c b r =
        if_cases (λ (c' : Con). Split con c' sce front info) (is_nil info) _ _
          (λ t. inl (nil info t, refl, refl))
          (λ x. elim b [
            | inl e ↦ absurd (not_nil info x (i ∙ rw e (drop-length p)))
            | inr h ↦
                inr (r, omega (arith, ap length f, length-take n p, cut-le p n c, h), refl, split h)
          ])
      where
        split :
            length con.basedir ≤ n
            → take (length con.uri_path - length info) con.uri_path ++ info ≡ con.uri_path
        split h =
            rw (i, from_root, placed) (uri_split con.basedir rel n h (rw (← placed) (cut-le p n c)))

    Found-file :
        (o : Option (Bytes × Bytes × Stat))
        → Longest stat (length con.basedir) p o
        → con.path ≡ some p
        → Found conf stat con (take_found conf o con)
    unfolding take_found
    Found-file none l e = refl
    Found-file (some (front, info, sce)) (n, f, i, c, b, st, m) e =
        if_cases (Found conf stat con) (not sce.is_regular) (refuse_path 404 con) _ (λ t. refl)
          (λ r.
            if_cases (Found conf stat con) (is_refused conf sce) (refuse_path 403 con) _ (λ t. refl)
              (λ g. (
                front,
                info,
                sce,
                set_path front info,
                st,
                g,
                ap text_of e ∙ rw (f, i) (sym (take-append-drop n p)),
                set-Split front info sce n f i c b (not-false sce.is_regular r),
              )))

    stat-Found :
        (name : SocketName) (r : StatResult)
        → stat p ≡ r
        → con.path ≡ some p
        → 0 < length con.basedir
        → Found conf stat con (check_stat conf name stat p r con)
    unfolding check_stat
    stat-Found name (entry sce) st e pos = entry-Found name sce p e st
    stat-Found name eacces st e pos = refl
    stat-Found name enoent st e pos = refl
    stat-Found name other_error st e pos = refl
    stat-Found name enotdir st e pos =
        Found-file (find_file stat (length con.basedir) p)
          (find_file-Longest stat (length con.basedir) p pos) e

-- Where the path is a base that is not empty and behind it the URI's path without its first slash, as
-- `set_physical` leaves it: if the request goes on, the path names an entry, and no symbolic link that
-- is not followed. Then either the whole path is that entry, and the URI's path is left as it is; or
-- the path is the beginning that is a regular file, with the base in it, and the rest is the path info
-- and is taken off the end of the URI's path. If the request does not go on, it is finished.
pub check_path-Found :
    (conf : Conf) (name : SocketName) (stat : Bytes → StatResult) (con : Con) (rel : Bytes)
    → con.path ≡ some (con.basedir ++ rel)
    → con.uri_path ≡ b'/' ∷ rel
    → 0 < length con.basedir
    → Found conf stat con (check_path conf name stat con)
unfolding check_path
check_path-Found conf name stat con rel placed from_root pos =
    let p = con.basedir ++ rel in
    let t : text_of con.path ≡ p = ap text_of placed in
    rw t (stat-Found conf stat con p rel refl from_root name (stat p) refl placed pos)
