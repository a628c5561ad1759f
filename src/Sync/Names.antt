-- ===== src/Sync/Names.antt =====
-- Lists of names separated by commas: `SyncState._str_to_list` and what it uses of `str`.
use area.Common.{
  ℕ, ◌==◌, leb, Bool, not, ◌&&◌, ◌||◌, List, [], ◌∷◌, ◌++◌, map, keep, is_empty, Text, ltb_text,
  if◌then◌else◌,
}

-- The characters that `str.strip` removes.
unfoldable pub is_space : ℕ → Bool
is_space c =
    (leb 9 c && leb c 13)
    || (leb 28 c && leb c 32)
    || c == 133
    || c == 160
    || c == 5760
    || (leb 8192 c && leb c 8202)
    || c == 8232
    || c == 8233
    || c == 8239
    || c == 8287
    || c == 12288

unfoldable pub strip_left : Text → Text
strip_left [] = []
strip_left (c ∷ s) = let rest = strip_left s in if is_space c then rest else c ∷ s

unfoldable pub strip_right : Text → Text
strip_right [] = []
strip_right (c ∷ s) =
    let rest = strip_right s in if is_empty rest && is_space c then [] else c ∷ rest

abbrev pub strip : Text → Text
strip s = strip_right (strip_left s)

abbrev pub comma : ℕ
comma = b','

abbrev pub extend : ℕ → List Text → List Text
extend c [] = (c ∷ []) ∷ []
extend c (s ∷ ss) = (c ∷ s) ∷ ss

-- `s.split(',')`
unfoldable pub split : Text → List Text
split [] = [] ∷ []
split (c ∷ s) = let rest = split s in if c == comma then [] ∷ rest else extend c rest

-- `','.join(names)`
unfoldable pub join : List Text → Text
join [] = []
join (s ∷ []) = s
join (s ∷ t ∷ ss) = s ++ comma ∷ join (t ∷ ss)

-- `_str_to_list`
unfoldable pub str_to_list : Text → List Text
str_to_list value = keep (λ a. not (is_empty a)) (map strip (split value))

unfoldable pub insert : Text → List Text → List Text
insert s [] = s ∷ []
insert s (t ∷ ss) = let rest = insert s ss in if ltb_text t s then t ∷ rest else s ∷ t ∷ ss

-- `sorted(names)`
unfoldable pub sorted : List Text → List Text
sorted [] = []
sorted (s ∷ ss) = insert s (sorted ss)
