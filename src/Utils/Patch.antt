-- ===== src/Utils/Patch.antt =====
-- `patch_config` and `deep_compare`. How Python writes a dictionary out is a parameter.
use area.Common.{Bool, true, false, ◌&&◌, ◌||◌, Option, none, some, Text, codes, eq_text}
use area.Utils.Tree.{Value, none_value, other, dict, Dict, nil, cons, get, put, is_some}

-- `config.pop(name, None) is not None`
abbrev pub is_held : Option Value → Bool
is_held none = false
is_held (some none_value) = false
is_held (some (other kind text)) = true
is_held (some (dict d)) = true

-- The keys of the first are keys of the second.
unfoldable pub keys_within : Dict → Dict → Bool
keys_within nil obj2 = true
keys_within (cons name value rest) obj2 = is_some (get obj2 name) && keys_within rest obj2

-- A dictionary that a patch returns, as a value.
abbrev pub as_value : Dict × Bool → Option Value × Bool
as_value (d, changed) = (some (dict d), changed)

-- A value and its replacement, and whether they count as equal.
abbrev pub replaced : Bool → Value → Value → Option Value × Bool
replaced true value new = (some value, false)
replaced false value new = (some new, true)

module _ (str_of_dict : Dict → Text) where
  -- `str(value)`
  unfoldable pub str : Value → Text
  str none_value = codes "None"
  str (other kind text) = text
  str (dict d) = str_of_dict d

  unfoldable mutual
    unfolding str

    -- What the configuration is after the patch, and whether the patch reports a change.
    pub patch_config : Dict → Dict → Dict × Bool
    patch_config config nil = (config, false)
    patch_config config (cons name value patch) =
        let patched : Option Value × Bool = patch_value (get config name) value in
        let later : Dict × Bool = patch_config (put config name patched.0) patch in
        (later.0, patched.1 || later.1)

    -- What a key has afterwards, if it had `current`.
    pub patch_value : Option Value → Value → Option Value × Bool
    patch_value current none_value = (none, is_held current)
    patch_value none (dict patch) = (some (dict patch), true)
    patch_value (some none_value) (dict patch) = (some (dict patch), true)
    patch_value (some (other kind text)) (dict patch) = (some (dict patch), true)
    patch_value (some (dict config)) (dict patch) = as_value (patch_config config patch)
    patch_value none (other kind text) = (some (other kind text), true)
    patch_value (some value) (other kind text) =
        replaced (eq_text (str value) text) value (other kind text)

  -- The values of the first dictionary, which has the keys of the second.
  unfoldable mutual
    unfolding str keys_within

    pub each_agrees : Dict → Dict → Bool
    each_agrees nil obj2 = true
    each_agrees (cons name value rest) obj2 =
        value_agrees value (get obj2 name) && each_agrees rest obj2

    pub value_agrees : Value → Option Value → Bool
    value_agrees value none = false
    value_agrees (dict obj1) (some (dict obj2)) =
        keys_within obj1 obj2 && keys_within obj2 obj1 && each_agrees obj1 obj2
    value_agrees (dict obj1) (some none_value) = false
    value_agrees (dict obj1) (some (other kind text)) = false
    value_agrees none_value (some value) = eq_text (codes "None") (str value)
    value_agrees (other kind text) (some value) = eq_text text (str value)

  unfoldable pub deep_compare : Dict → Dict → Bool
  unfolding each_agrees keys_within
  deep_compare obj1 obj2 = keys_within obj1 obj2 && keys_within obj2 obj1 && each_agrees obj1 obj2
