-- ===== src/Tags.antt =====
-- tags.py: the tags of a node and the properties that are read off them. A value of the dictionary is
-- kept as what the program makes of it, since any YAML or JSON value may stand there.
pub mod Filter
pub mod Tests
use area.Common.{
  ℤ, pos, leb_ℤ, Bool, true, false, not, ◌&&◌, ◌||◌, Option, none, some, List, [], ◌∷◌, some_of,
  keep, Text, codes, eq_text, if◌then◌else◌,
}

-- A value that is not `None`: its truth value, what `parse_int` and `parse_bool` give for it, and the
-- value as a text, for the tags that name a node.
pub record TagValue : Type 0 where
  pub truth : Bool
  pub number : Option ℤ
  pub flag : Option Bool
  pub text : Text

pub record Tag : Type 0 where
  pub name : Text
  pub value : Option TagValue

-- The dictionary, its keys in order and each of them once.
abbrev pub Tags : Type 0
Tags = List Tag

unfoldable pub has_tag : Tags → Text → Bool
has_tag tags name = some_of (λ t. eq_text t.name name) tags

-- `tags.get(name)`
unfoldable pub get_tag : Tags → Text → Option TagValue
get_tag [] name = none
get_tag (t ∷ ts) name = let rest = get_tag ts name in if eq_text t.name name then t.value else rest

-- The truth value of what `get` returns.
unfoldable pub is_true : Option TagValue → Bool
is_true none = false
is_true (some v) = v.truth

-- `parse_int(tags.get(name))`
unfoldable pub number_of : Option TagValue → Option ℤ
number_of none = none
number_of (some v) = v.number

-- `_priority_tag` on the two values.
unfoldable pub priority_tag : Option TagValue → Option TagValue → ℤ
unfolding is_true number_of
priority_tag from_tags from_priority =
    let priority : ℤ = elim (number_of from_priority) [ none ↦ pos 1 | some n ↦ n ] in
    if is_true from_tags then pos 0 else priority

-- `_bool_tag` on the two values.
unfoldable pub bool_tag : Option TagValue → Option TagValue → Bool
unfolding number_of
bool_tag from_tags from_priority = elim from_tags [
  | some v ↦ v.truth
  | none ↦ elim (number_of from_priority) [ none ↦ false | some n ↦ leb_ℤ n (pos 0) ]
]

unfoldable pub clonefrom : Tags → Bool
clonefrom tags = is_true (get_tag tags (codes "clonefrom"))

unfoldable pub nofailover : Tags → Bool
nofailover tags =
    bool_tag (get_tag tags (codes "nofailover")) (get_tag tags (codes "failover_priority"))

unfoldable pub failover_priority : Tags → ℤ
failover_priority tags =
    priority_tag (get_tag tags (codes "nofailover")) (get_tag tags (codes "failover_priority"))

unfoldable pub noloadbalance : Tags → Bool
noloadbalance tags = is_true (get_tag tags (codes "noloadbalance"))

unfoldable pub nosync : Tags → Bool
nosync tags = bool_tag (get_tag tags (codes "nosync")) (get_tag tags (codes "sync_priority"))

unfoldable pub sync_priority : Tags → ℤ
sync_priority tags =
    priority_tag (get_tag tags (codes "nosync")) (get_tag tags (codes "sync_priority"))

unfoldable pub replicatefrom : Tags → Option Text
replicatefrom tags = elim (get_tag tags (codes "replicatefrom")) [
  | none ↦ none
  | some v ↦ some v.text
]

-- `parse_bool(...) or False`
unfoldable pub nostream : Tags → Bool
nostream tags = elim (get_tag tags (codes "nostream")) [
  | none ↦ false
  | some v ↦ elim v.flag [ none ↦ false | some b ↦ b ]
]

-- The tags that `_filter_tags` drops where their value counts as false.
abbrev pub is_switch : Text → Bool
is_switch name = some_of (eq_text name) (
    codes "clonefrom"
    ∷ codes "nofailover"
    ∷ codes "noloadbalance"
    ∷ codes "nosync"
    ∷ codes "nostream"
    ∷ [])

abbrev pub kept : Tags → Tag → Bool
kept tags t =
    not (is_switch t.name)
    || is_true t.value
    || (eq_text t.name (codes "nofailover") && has_tag tags (codes "failover_priority"))
    || (eq_text t.name (codes "nosync") && has_tag tags (codes "sync_priority"))

-- `_filter_tags`
unfoldable pub filter_tags : Tags → Tags
unfolding is_true has_tag
filter_tags tags = keep (kept tags) tags
