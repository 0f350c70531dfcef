-- ===== src/Response/PathInfo.antt =====
-- The search for the file that a path goes through: the loop of `http_response_prepare`
-- (src/response.c) that takes parts off the end of the path until `stat` finds something.
pub mod Longest
use lighttpd_autothumb.Base.{
  ℕ, zero, suc, ◌+◌, ◌-◌, Bool, not, ◌&&◌, Option, none, some, [], ◌∷◌, ◌++◌, ltb, ◌==◌,
  if◌then◌else◌, length, Bytes,
}

-- The entry that `stat_cache_get_entry` gives.
pub record Stat : Type 0 where
  pub is_symlink : Bool
  pub is_directory : Bool
  pub is_regular : Bool

pub data StatResult : Type 0 where
  entry : Stat → StatResult
  eacces enoent enotdir other_error : StatResult

-- `strrchr(text, '/')`: what stands in front of the last slash, and the text from it on.
unfoldable pub split_last : Bytes → Option (Bytes × Bytes)
split_last [] = none
split_last (c ∷ s) =
    let rest = split_last s in
    elim rest [
      | some (front, back) ↦ some (c ∷ front, back)
      | none ↦ if c == b'/' then some ([], c ∷ s) else none
    ]

-- The slash stands behind `physical.basedir`: `used - 2` wraps where the base is empty.
abbrev pub is_behind : ℕ → ℕ → Bool
is_behind base n = not (base == 0) && ltb (base - 1) n

-- The test at the end of a round, where the slash stands behind `front`; `rest` is the next round.
unfoldable pub next_cut :
    (Bytes → Bytes → Option (Bytes × Bytes × Stat))
    → ℕ
    → Bytes
    → Option (Bytes × Bytes)
    → Option (Bytes × Bytes × Stat)
next_cut rest base info none = none
next_cut rest base info (some (front, back)) =
    if is_behind base (length front) then rest front (back ++ info) else none

unfoldable pub take_entry :
    Bytes → Bytes → StatResult → Option (Bytes × Bytes × Stat) → Option (Bytes × Bytes × Stat)
take_entry front info (entry sce) rest = some (front, info, sce)
take_entry front info eacces rest = rest
take_entry front info enoent rest = rest
take_entry front info enotdir rest = rest
take_entry front info other_error rest = rest

-- The loop, with the rounds left: the path is `front`, the text behind it `info`, and `base` is the
-- length of `physical.basedir`.
unfoldable pub find_loop :
    ℕ → (Bytes → StatResult) → ℕ → Bytes → Bytes → Option (Bytes × Bytes × Stat)
find_loop zero stat base front info = none
find_loop (suc rounds) stat base front info =
    take_entry front info (stat front)
      (next_cut (find_loop rounds stat base) base info (split_last front))

-- Each round has a shorter path, so that one round more than the path has bytes is enough.
unfoldable pub find_file : (Bytes → StatResult) → ℕ → Bytes → Option (Bytes × Bytes × Stat)
find_file stat base path = find_loop (length path + 1) stat base path []
