-- ===== src/Utils/Changed.antt =====
-- When `patch_config` reports a change.
use area.Common.{
  ◌≡◌, ◌↔◌, refl, sym, ap, ◌∙◌, inl, inr, arith, Bool-cases, Bool, true, false, ◌||◌, Option, none,
  some, Text, eq_text, eq_of_eq_text, eq_text_refl, if◌then◌else◌,
}
use area.Utils.Tree.{
  Value, none_value, other, dict, Dict, nil, cons, get, put, get-put, distinct, distinct_value,
  none_free, eq_text-differ,
}
use area.Utils.Patch.{replaced, str, patch_config, patch_value}
use area.Utils.Patched.{patched_at, parts, unchanged, get-patch_config}

pub or-false : (a b : Bool) → a ≡ false → b ≡ false → (a || b) ≡ false
or-false a b h k = ground arith

-- A replacement that is the value itself counts as equal to it.
uncompared :
    (s : Dict → Text) (b : Bool) (w : Value) (kind text : Text)
    → b ≡ eq_text (str s w) text
    → (replaced b w (other kind text)).0 ≡ some w
    → (replaced b w (other kind text)).1 ≡ false
unfolding str
uncompared s true w kind text h e = refl
uncompared s false none_value kind text h e = cc
uncompared s false (dict d) kind text h e = cc
uncompared s false (other k t) kind text h e = cc (h ∙ ap (eq_text t) (text_inj e) ∙ eq_text_refl t)
  where
    text_inj : {k t kind text : Text} → some (other kind text) ≡ some (other k t) → text ≡ t
    text_inj e = cc

dict_inj : {a b : Dict} → some (dict a) ≡ some (dict b) → a ≡ b
dict_inj e = cc

module _ (s : Dict → Text) where
  -- Whether an entry of the patch reports a change on what the configuration has at first.
  abbrev pub reported : Dict → Dict → Bool
  reported config nil = false
  reported config (cons name value patch) =
      (patch_value s (get config name) value).1 || reported config patch

  -- The entries of a patch do not get in each other's way.
  reported-put :
      (config patch : Dict) (name : Text) (v : Option Value)
      → get patch name ≡ none
      → reported (put config name v) patch ≡ reported config patch
  unfolding get
  reported-put config nil name v h = refl
  reported-put config (cons key value patch) name v h = elim (Bool-cases (eq_text name key)) [
    | inl e ↦ cc (rw e at h)
    | inr e ↦ rw (reported-put config patch name v (rw e at h)) (
        ap (λ c. (patch_value s c value).1 || reported config patch)
          (get-put config name v key
            ∙ ap (λ b. if b then v else get config key) (eq_text-differ name key e)))
  ]

  pub changed-reported :
      (config patch : Dict)
      → distinct patch ≡ true
      → (patch_config s config patch).1 ≡ reported config patch
  unfolding patch_config distinct
  changed-reported config nil h = refl
  changed-reported config (cons name value patch) h =
      let p = patch_value s (get config name) value in
      let (absent, _, rest) = parts (get patch name) (distinct_value value) (distinct patch) h in
      ap (λ b. p.1 || b)
        (changed-reported (put config name p.0) patch rest
          ∙ reported-put config patch name p.0 absent)

  -- Where nothing changes, no change is reported.
  mutual
    unfolding patch_value distinct get

    unreported :
        (config patch : Dict)
        → distinct patch ≡ true
        → ((key : Text) → patched_at s (get config key) (get patch key) ≡ get config key)
        → reported config patch ≡ false
    unreported config nil h e = refl
    unreported config (cons name value patch) h e =
        let (absent, b, rest) = parts (get patch name) (distinct_value value) (distinct patch) h in
        or-false (patch_value s (get config name) value).1 (reported config patch)
          (unreported_value (get config name) value b (here (e name)))
          (unreported config patch rest (λ key. there key absent (e key)))
      where
        here :
            patched_at s (get config name) (get (cons name value patch) name) ≡ get config name
            → (patch_value s (get config name) value).0 ≡ get config name
        here e =
            ap (λ b. patched_at s (get config name) (if b then some value else get patch name))
              (sym (eq_text_refl name))
            ∙ e

        there :
            (key : Text)
            → get patch name ≡ none
            → patched_at s (get config key) (get (cons name value patch) key) ≡ get config key
            → patched_at s (get config key) (get patch key) ≡ get config key
        there key absent e = elim (Bool-cases (eq_text key name)) [
          | inl t ↦
              ap (patched_at s (get config key))
                (ap (get patch) (eq_of_eq_text key name t) ∙ absent)
          | inr t ↦
              ap (λ b. patched_at s (get config key) (if b then some value else get patch key))
                (sym t)
              ∙ e
        ]

    unreported_value :
        (current : Option Value) (value : Value)
        → distinct_value value ≡ true
        → (patch_value s current value).0 ≡ current
        → (patch_value s current value).1 ≡ false
    unreported_value none none_value h e = refl
    unreported_value (some v) none_value h e = cc
    unreported_value none (dict patch) h e = cc
    unreported_value (some none_value) (dict patch) h e = cc
    unreported_value (some (other kind text)) (dict patch) h e = cc
    unreported_value (some (dict config)) (dict patch) h e =
        changed-reported config patch h
        ∙ unreported config patch h
            (λ key. sym (get-patch_config s config patch key h) ∙ ap (λ d. get d key) (dict_inj e))
    unreported_value none (other kind text) h e = cc
    unreported_value (some value) (other kind text) h e =
        uncompared s (eq_text (str s value) text) value kind text refl e

-- A patch of a configuration without the value None reports a change exactly if it makes one. No
-- dictionary in the patch has a key twice.
pub patch_config-changed :
    (s : Dict → Text) (config patch : Dict)
    → none_free config ≡ true
    → distinct patch ≡ true
    → ((patch_config s config patch).1 ≡ false) ↔ ((patch_config s config patch).0 ≡ config)
patch_config-changed s config patch h k = (
  unchanged s config patch h,
  λ e.
      changed-reported s config patch k
      ∙ unreported s config patch k
          (λ key. sym (get-patch_config s config patch key k) ∙ ap (λ d. get d key) e),
)
