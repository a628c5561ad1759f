-- ===== src/Utils/Patched.antt =====
-- What `patch_config` leaves for each key.
use area.Common.{
  ◌≡◌, refl, sym, subst, ap, ◌∙◌, inl, inr, arith, Bool-cases, Option-cases, Bool, true, false, not,
  ◌&&◌, ◌||◌, Option, none, some, Text, eq_text, eq_of_eq_text, if◌then◌else◌,
}
use area.Utils.Tree.{
  Value, none_value, other, dict, Dict, nil, cons, get, put, is_some, get-put, put-get, distinct,
  distinct_value, none_free, none_free_value, none_free-get,
}
use area.Utils.Patch.{replaced, str, patch_config, patch_value}

abbrev none_free_current : Option Value → Bool
none_free_current none = true
none_free_current (some v) = none_free_value v

none_free_current-get :
    (d : Dict) (key : Text) → none_free d ≡ true → none_free_current (get d key) ≡ true
none_free_current-get d key h = elim (Option-cases (get d key)) [
  | inl e ↦ rw e refl
  | inr (v, e) ↦ rw e (none_free-get d key v h e)
]

or-eq-false : (a b : Bool) → (a || b) ≡ false → (a ≡ false) × (b ≡ false)
or-eq-false a b h = ground arith

-- What a key has after a patch that has it or not.
abbrev pub patched_at : (Dict → Text) → Option Value → Option Value → Option Value
patched_at s current none = current
patched_at s current (some v) = (patch_value s current v).0

compared : (b : Bool) (w v : Value) → (replaced b w v).1 ≡ false → (replaced b w v).0 ≡ some w
compared true w v e = refl
compared false w v e = cc

pub parts :
    (o : Option Value) (b c : Bool)
    → (not (is_some o) && b && c) ≡ true
    → (o ≡ none) × (b ≡ true) × (c ≡ true)
parts none b c h = ground arith
parts (some v) b c h = cc

module _ (s : Dict → Text) where
  -- A patch that reports no change makes none.
  mutual
    unfolding patch_config patch_value none_free

    pub unchanged :
        (config patch : Dict)
        → none_free config ≡ true
        → (patch_config s config patch).1 ≡ false
        → (patch_config s config patch).0 ≡ config
    unchanged config nil h e = refl
    unchanged config (cons name value patch) h e =
        let p = patch_value s (get config name) value in
        let (a, b) = or-eq-false p.1 (patch_config s (put config name p.0) patch).1 e in
        let same : put config name p.0 ≡ config =
          put-get config name p.0 (
            sym
              (unchanged_value (get config name) value (none_free_current-get config name h) a)) in
        subst (λ c. (patch_config s c patch).0 ≡ config) (sym same)
          (unchanged config patch h (subst (λ c. (patch_config s c patch).1 ≡ false) same b))

    unchanged_value :
        (current : Option Value) (value : Value)
        → none_free_current current ≡ true
        → (patch_value s current value).1 ≡ false
        → (patch_value s current value).0 ≡ current
    unchanged_value none none_value h e = refl
    unchanged_value (some none_value) none_value h e = cc
    unchanged_value (some (other kind text)) none_value h e = cc
    unchanged_value (some (dict d)) none_value h e = cc
    unchanged_value none (dict patch) h e = cc
    unchanged_value (some none_value) (dict patch) h e = cc
    unchanged_value (some (other kind text)) (dict patch) h e = cc
    unchanged_value (some (dict config)) (dict patch) h e =
        ap (λ d. some (dict d)) (unchanged config patch h e)
    unchanged_value none (other kind text) h e = cc
    unchanged_value (some value) (other kind text) h e =
        compared (eq_text (str s value) text) value (other kind text) e

  -- A patch leaves for a key what its value there makes of what the key had.
  pub get-patch_config :
      (config patch : Dict) (key : Text)
      → distinct patch ≡ true
      → get (patch_config s config patch).0 key ≡ patched_at s (get config key) (get patch key)
  unfolding patch_config distinct get
  get-patch_config config nil key h = refl
  get-patch_config config (cons name value patch) key h =
      let p = patch_value s (get config name) value in
      let (absent, _, rest) = parts (get patch name) (distinct_value value) (distinct patch) h in
      let later = get-patch_config (put config name p.0) patch key rest in
      elim (Bool-cases (eq_text key name)) [
        | inl e ↦
            let same = eq_of_eq_text key name e in
            rw e (
              later
              ∙ ap (patched_at s (get (put config name p.0) key)) (ap (get patch) same ∙ absent)
              ∙ get-put config name p.0 key
              ∙ ap (λ b. if b then p.0 else get config key) e
              ∙ ap (λ k. (patch_value s (get config k) value).0) (sym same))
        | inr e ↦ rw e (
            later
            ∙ ap (λ v. patched_at s v (get patch key))
                (get-put config name p.0 key ∙ ap (λ b. if b then p.0 else get config key) e))
      ]
