-- ===== src/Standby/Reread.antt =====
-- The value of `synchronous_standby_names` that is written for quorum commit is read back.
use area.Common.{
  ℕ, suc, ltb, ℤ, pos, ◌≡◌, refl, ap, ◌∙◌, inl, inr, arith, Bool-cases, true, false, Option, some,
  List, [], ◌∷◌, every, some_of, map, is_empty, length, Text, codes, eq_text, ltb_text,
  if◌then◌else◌,
}
use area.Sync.Names.{insert, sorted}
use area.Standby.Parse.{quote_standby_name, parse_sync_standby_names}
use area.Standby.Format.{Writing, join_names, has_asterisk, quoted_names, param_of, sync_param}
use area.Standby.Names.{is_readable}
use area.Standby.Roundtrip.{any_text, quorum_of, parse-any_text}

pub two : (k : ℕ) → ltb 1 (suc (suc k)) ≡ true
two k = ground arith

param_of-any :
    (w : Writing) (n : ℕ) (name : Text) (names : List Text)
    → w.supports_multiple_sync ≡ true
    → w.is_quorum_commit_mode ≡ true
    → w.supports_quorum_commit ≡ true
    → param_of w (map quote_standby_name (name ∷ names)) (some (pos n))
      ≡ some (any_text n (name ∷ names))
unfolding param_of join_names
param_of-any w n name [] s q c = rw (s, q, c) refl
param_of-any w n name (more ∷ names) s q c =
    rw (s, q, c, two (length (map quote_standby_name names))) refl

has_asterisk-eq-false :
    (sync : List Text) (n : ℕ)
    → is_empty sync ≡ false
    → some_of (eq_text (codes "*")) sync ≡ false
    → has_asterisk sync (some (pos n)) ≡ false
unfolding has_asterisk
has_asterisk-eq-false sync n e h = ground arith

filled-insert : (s : Text) (ss : List Text) → is_empty (insert s ss) ≡ false
unfolding insert
filled-insert s [] = refl
filled-insert s (t ∷ ss) = elim (Bool-cases (ltb_text t s)) [
  | inl e ↦ rw e refl
  | inr e ↦ rw e refl
]

filled-sorted : (sync : List Text) → is_empty sync ≡ false → is_empty (sorted sync) ≡ false
unfolding sorted
filled-sorted [] e = cc
filled-sorted (s ∷ ss) e = filled-insert s (sorted ss)

pub quoted_names-if :
    (sync : List Text) (num : Option ℤ)
    → quoted_names sync num
      ≡ (if has_asterisk sync num then codes "*" ∷ [] else map quote_standby_name (sorted sync))
unfolding quoted_names
quoted_names-if sync num = refl

quoted_names-eq :
    (sync : List Text) (n : ℕ)
    → is_empty sync ≡ false
    → some_of (eq_text (codes "*")) sync ≡ false
    → quoted_names sync (some (pos n)) ≡ map quote_standby_name (sorted sync)
quoted_names-eq sync n e h =
    quoted_names-if sync (some (pos n))
    ∙ ap (λ b. if b then codes "*" ∷ [] else map quote_standby_name (sorted sync))
        (has_asterisk-eq-false sync n e h)

-- In quorum commit mode, where PostgreSQL supports it, the value that is written for some names and a
-- number is parsed again: as quorum commit with that number and the set of these names. None of the
-- names is `*`, and each is written in quotes or has only the characters of identifiers and does not
-- start with a keyword.
pub parse-sync_param :
    (w : Writing) (sync : List Text) (n : ℕ)
    → w.supports_multiple_sync ≡ true
    → w.is_quorum_commit_mode ≡ true
    → w.supports_quorum_commit ≡ true
    → is_empty sync ≡ false
    → some_of (eq_text (codes "*")) sync ≡ false
    → every is_readable (sorted sync) ≡ true
    → (value : Text) × (sync_param w sync (some (pos n)) ≡ some value)
      × (parse_sync_standby_names value ≡ some (quorum_of n (sorted sync)))
unfolding sync_param
parse-sync_param w sync n s q c e h r =
    let written = ap (λ names. param_of w names (some (pos n))) (quoted_names-eq sync n e h) in
    of_sorted (sorted sync) (filled-sorted sync e) r written
  where
    of_sorted :
        (names : List Text)
        → is_empty names ≡ false
        → every is_readable names ≡ true
        → param_of w (quoted_names sync (some (pos n))) (some (pos n))
          ≡ param_of w (map quote_standby_name names) (some (pos n))
        → (value : Text) × (param_of w (quoted_names sync (some (pos n))) (some (pos n))
            ≡ some value)
          × (parse_sync_standby_names value ≡ some (quorum_of n names))
    of_sorted [] e r written = cc
    of_sorted (name ∷ names) e r written = (
      any_text n (name ∷ names),
      written ∙ param_of-any w n name names s q c,
      parse-any_text n name names r,
    )
