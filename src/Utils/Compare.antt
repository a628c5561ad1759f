-- ===== src/Utils/Compare.antt =====
-- Configurations that `deep_compare` takes for equal are not changed by `patch_config`.
use area.Common.{
  ◌≡◌, refl, ap, ◌∙◌, arith, and-eq-true, Bool, true, false, not, ◌&&◌, Option, none, some, Text,
  eq_text, eq_of_eq_text, eq_text_refl,
}
use area.Utils.Tree.{
  Value, none_value, other, dict, Dict, nil, cons, get, is_some, distinct, distinct_value,
  none_free, none_free_value,
}
use area.Utils.Patch.{
  replaced, str, patch_config, patch_value, keys_within, each_agrees, value_agrees, deep_compare,
}
use area.Utils.Changed.{reported, changed-reported, or-false, patch_config-changed}

three : (a b c : Bool) → (a && b && c) ≡ true → (a ≡ true) × (b ≡ true) × (c ≡ true)
three a b c h = ground arith

equal_texts :
    (t u : Text) (w v : Value) → eq_text t u ≡ true → (replaced (eq_text u t) w v).1 ≡ false
equal_texts t u w v h =
    ap (λ b. (replaced b w v).1) (ap (eq_text u) (eq_of_eq_text t u h) ∙ eq_text_refl u)

module _ (s : Dict → Text) where
  mutual
    unfolding patch_value each_agrees distinct none_free

    settled :
        (patch config : Dict)
        → distinct patch ≡ true
        → none_free patch ≡ true
        → each_agrees s patch config ≡ true
        → reported s config patch ≡ false
    settled nil config h k e = refl
    settled (cons name value patch) config h k e =
        let (_, a, b) =
          three (not (is_some (get patch name))) (distinct_value value) (distinct patch) h in
        let (c, d) = and-eq-true (none_free_value value) (none_free patch) k in
        let (p, q) =
          and-eq-true (value_agrees s value (get config name)) (each_agrees s patch config) e in
        or-false (patch_value s (get config name) value).1 (reported s config patch)
          (settled_value value (get config name) a c p) (settled patch config b d q)

    settled_value :
        (value : Value) (current : Option Value)
        → distinct_value value ≡ true
        → none_free_value value ≡ true
        → value_agrees s value current ≡ true
        → (patch_value s current value).1 ≡ false
    settled_value none_value current h k e = cc
    settled_value (dict patch) none h k e = cc
    settled_value (dict patch) (some none_value) h k e = cc
    settled_value (dict patch) (some (other kind text)) h k e = cc
    settled_value (dict patch) (some (dict config)) h k e =
        changed-reported s config patch h
        ∙ settled patch config h k
            (three (keys_within patch config) (keys_within config patch)
              (each_agrees s patch config) e).2
    settled_value (other kind text) none h k e = cc
    settled_value (other kind text) (some value) h k e =
        equal_texts text (str s value) value (other kind text) e

-- Patching with a dictionary that deep_compare takes for equal to a configuration without the value None
-- reports no change and makes none. The patch has no None either, and no key twice in a dictionary.
pub patch_config-deep_compare :
    (s : Dict → Text) (config patch : Dict)
    → none_free config ≡ true
    → none_free patch ≡ true
    → distinct patch ≡ true
    → deep_compare s patch config ≡ true
    → patch_config s config patch ≡ (config, false)
unfolding deep_compare
patch_config-deep_compare s config patch h k d e =
    let (_, _, each) =
      three (keys_within patch config) (keys_within config patch) (each_agrees s patch config) e in
    let quiet = changed-reported s config patch d ∙ settled s patch config d k each in
    pair quiet ((patch_config-changed s config patch h d).0 quiet)
  where
    pair : {x : Dict × Bool} → x.1 ≡ false → x.0 ≡ config → x ≡ (config, false)
    pair e f = cc
