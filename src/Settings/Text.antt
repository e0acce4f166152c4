-- ===== src/Settings/Text.antt =====
-- `Settings::trim`, on a text as the list of its characters' codes.
use gpsopen_cl.Prelude.{ℕ, ◌+◌, ◌-◌, Bool, false, ◌||◌, Option, none, some}
use gpsopen_cl.Prelude.{List, [], ◌∷◌, ◌==◌, if◌then◌else◌, take, drop}

abbrev pub is_one_of : ℕ → List ℕ → Bool
is_one_of c [] = false
is_one_of c (w ∷ ws) = (c == w) || is_one_of c ws

-- `find_first_not_of` and `find_last_not_of`, from place `i` on.
unfoldable pub find_first_not_of : List ℕ → ℕ → List ℕ → Option ℕ
find_first_not_of whitespace i [] = none
find_first_not_of whitespace i (c ∷ cs) =
    let later = find_first_not_of whitespace (i + 1) cs in
    if is_one_of c whitespace then later else some i

unfoldable pub find_last_not_of : List ℕ → ℕ → List ℕ → Option ℕ
find_last_not_of whitespace i [] = none
find_last_not_of whitespace i (c ∷ cs) = elim (find_last_not_of whitespace (i + 1) cs) [
  | some j ↦ some j
  | none ↦ if is_one_of c whitespace then none else some i
]

-- Both are found or neither is.
unfoldable pub trim_between : Option ℕ → Option ℕ → List ℕ → List ℕ
trim_between none last str = []
trim_between (some begin) none str = []
trim_between (some begin) (some end) str = take (end - begin + 1) (drop begin str)

unfoldable pub trim : List ℕ → List ℕ → List ℕ
trim str whitespace =
    trim_between (find_first_not_of whitespace 0 str) (find_last_not_of whitespace 0 str) str
