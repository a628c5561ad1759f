-- ===== src/Dictionary.antt =====
-- `CaseInsensitiveDict` of collections.py. `_values` maps `key.lower()` to the key last set and its
-- value, in insertion order; the list of these pairs determines it.
pub mod Distinct
pub mod Laws
pub mod Refines
pub mod Tests
use area.Common.{
  ℤ, pos, Bool, true, false, not, ◌&&◌, Option, none, some, List, [], ◌∷◌, map, length, Text, lower,
  if◌then◌else◌,
}
use area.Collections.{same_key}

pub record Entry (V : Type 0) : Type 0 where
  pub key : Text
  pub value : V

abbrev pub CaseInsensitiveDict : Type 0 → Type 0
CaseInsensitiveDict V = List (Entry V)

module _ {V : Type 0} where
  -- `d[key]`; none is a `KeyError`.
  unfoldable pub get_item : CaseInsensitiveDict V → Text → Option V
  get_item [] key = none
  get_item (e ∷ d) key =
      let rest = get_item d key in if same_key key e.key then some e.value else rest

  -- `d[key] = value`: an existing key keeps its place.
  unfoldable pub set_item : CaseInsensitiveDict V → Text → V → CaseInsensitiveDict V
  set_item [] key value = record { key = key; value = value } ∷ []
  set_item (e ∷ d) key value =
      let rest = set_item d key value in
      if same_key key e.key then record { key = key; value = value } ∷ d else e ∷ rest

  -- `del d[key]`; none is a `KeyError`.
  unfoldable pub del_item : CaseInsensitiveDict V → Text → Option (CaseInsensitiveDict V)
  del_item [] key = none
  del_item (e ∷ d) key =
      let rest = del_item d key in if same_key key e.key then some d else keep_head rest
    where
      keep_head : Option (CaseInsensitiveDict V) → Option (CaseInsensitiveDict V)
      keep_head none = none
      keep_head (some d') = some (e ∷ d')

  -- `update` with the items of a dictionary.
  unfoldable pub update : CaseInsensitiveDict V → List (Entry V) → CaseInsensitiveDict V
  update d [] = d
  update d (e ∷ es) = update (set_item d e.key e.value) es

  -- `iter(d)`
  unfoldable pub iter : CaseInsensitiveDict V → List Text
  iter d = map (λ e. e.key) d

  unfoldable pub keys : CaseInsensitiveDict V → List Text
  keys d = map (λ e. lower e.key) d

  unfoldable pub copy : CaseInsensitiveDict V → CaseInsensitiveDict V
  copy d = update [] d
