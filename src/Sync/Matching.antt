-- ===== src/Sync/Matching.antt =====
-- `SyncState.matches` looks for a name among the voters, whatever the case of the letters.
use area.Common.{
  ℕ, ◌≡◌, refl, sym, ap, ◌∙◌, inl, inr, arith, Bool-cases, ◌==◌, Bool, true, false, not, ◌&&◌, ◌||◌,
  Option, none, some, List, [], ◌∷◌, ◌++◌, map, keep, some_of, some_of-append, is_empty, Text,
  eq_text, lower, lower_char, if◌then◌else◌,
}
use area.Sync.Names.{is_space, strip_left, strip_right, strip, comma, extend, split, str_to_list}
use area.Sync.State.{
  SyncState, voters, members, matches, leader_matches, or_empty, is_set, is_empty_state,
}
use area.Sync.Written.{members-eq}
use area.Sync.Commas.{plain, str_to_list-append, str_to_list-plain}

lower-comma : (c : ℕ) → (lower_char c == comma) ≡ (c == comma)
lower-comma c = ground arith

lower-is_space : (c : ℕ) → is_space (lower_char c) ≡ is_space c
unfolding is_space
lower-is_space c = ground arith

lower-is_empty : (s : Text) → is_empty (lower s) ≡ is_empty s
unfolding lower
lower-is_empty [] = refl
lower-is_empty (c ∷ s) = refl

lower-extend :
    (c : ℕ) (ss : List Text) → extend (lower_char c) (map lower ss) ≡ map lower (extend c ss)
unfolding lower
lower-extend c [] = refl
lower-extend c (s ∷ ss) = refl

lower-split : (s : Text) → split (lower s) ≡ map lower (split s)
unfolding split lower
lower-split [] = refl
lower-split (c ∷ s) = elim (Bool-cases (c == comma)) [
  | inl e ↦ rw (lower-comma c, e, lower-split s)
  | inr e ↦ rw (lower-comma c, e, lower-split s, lower-extend c (split s))
]

lower-strip_left : (s : Text) → strip_left (lower s) ≡ lower (strip_left s)
unfolding strip_left lower
lower-strip_left [] = refl
lower-strip_left (c ∷ s) = elim (Bool-cases (is_space c)) [
  | inl e ↦ rw (lower-is_space c, e, lower-strip_left s)
  | inr e ↦ rw (lower-is_space c, e)
]

lower-strip_right : (s : Text) → strip_right (lower s) ≡ lower (strip_right s)
unfolding strip_right lower
lower-strip_right [] = refl
lower-strip_right (c ∷ s) = elim (Bool-cases (is_empty (strip_right s) && is_space c)) [
  | inl e ↦ rw (lower-strip_right s, lower-is_empty (strip_right s), lower-is_space c, e)
  | inr e ↦ rw (lower-strip_right s, lower-is_empty (strip_right s), lower-is_space c, e)
]

lower-strip : (s : Text) → strip (lower s) ≡ lower (strip s)
lower-strip s = ap strip_right (lower-strip_left s) ∙ lower-strip_right (strip_left s)

lower-cleaned :
    (ss : List Text)
    → keep (λ a. not (is_empty a)) (map strip (map lower ss))
      ≡ map lower (keep (λ a. not (is_empty a)) (map strip ss))
lower-cleaned [] = refl
lower-cleaned (s ∷ ss) = elim (Bool-cases (is_empty (strip s))) [
  | inl e ↦ rw (lower-strip s, lower-is_empty (strip s), e, lower-cleaned ss)
  | inr e ↦ rw (lower-strip s, lower-is_empty (strip s), e, lower-cleaned ss)
]

pub lower-str_to_list : (s : Text) → str_to_list (lower s) ≡ map lower (str_to_list s)
unfolding str_to_list
lower-str_to_list s = rw (lower-split s, lower-cleaned (split s))

some_of-map :
    (p : Text → Bool) (ss : List Text) → some_of p (map lower ss) ≡ some_of (λ s. p (lower s)) ss
some_of-map p [] = refl
some_of-map p (s ∷ ss) = ap (λ b. p (lower s) || b) (some_of-map p ss)

-- Two names that differ at most in the case of their letters.
unfoldable pub same_name : Text → Text → Bool
same_name s t = eq_text (lower s) (lower t)

searched :
    (name s : Text)
    → some_of (eq_text (lower name)) (str_to_list (lower s))
      ≡ some_of (same_name name) (str_to_list s)
unfolding same_name
searched name s =
    ap (some_of (eq_text (lower name))) (lower-str_to_list s)
    ∙ some_of-map (eq_text (lower name)) (str_to_list s)

append-nil : (s : Text) → s ++ [] ≡ s
append-nil [] = refl
append-nil (c ∷ s) = ap (λ r. c ∷ r) (append-nil s)

or_comm : (a b : Bool) → (a || b) ≡ (b || a)
or_comm a b = ground arith

module _ {Version : Type 0} where
  voters-eq :
      (s : SyncState Version)
      → is_set s.leader ≡ true
      → voters s ≡ str_to_list (or_empty s.sync_standby)
  unfolding voters is_empty_state is_set or_empty str_to_list split strip_left strip_right
  voters-eq s l = rw l (go s.sync_standby)
    where
      go :
          (o : Option Text)
          → (if is_set o then str_to_list (or_empty o) else []) ≡ str_to_list (or_empty o)
      go none = refl
      go (some []) = refl
      go (some (c ∷ t)) = refl

  matches-eq :
      (s : SyncState Version) (name : Text) (check_leader : Bool)
      → is_set (some name) ≡ true
      → is_set s.leader ≡ true
      → matches (some name) check_leader s
        ≡ some_of (same_name name) (
            str_to_list
              (or_empty s.sync_standby ++ (if check_leader then comma ∷ or_empty s.leader else [])))
  unfolding matches is_empty_state or_empty
  matches-eq s name check_leader n l = rw (n, l) (searched name _)

  leader_matches-eq :
      (s : SyncState Version) (name : Text)
      → is_set (some name) ≡ true
      → is_set s.leader ≡ true
      → leader_matches (some name) s ≡ same_name name (or_empty s.leader)
  unfolding leader_matches is_empty_state or_empty same_name
  leader_matches-eq s name n l = rw (n, l)

  -- For a state that is not empty, with a leader that has neither commas nor spaces, and a name that is
  -- not empty, `matches` holds exactly if a voter has that name, or with `check_leader` exactly if a
  -- member has it, whatever the case of the letters, and `leader_matches` exactly if the leader has it.
  pub matches-members :
      (s : SyncState Version) (name : Text)
      → is_set (some name) ≡ true
      → is_set s.leader ≡ true
      → plain (or_empty s.leader) ≡ true
      → (matches (some name) false s ≡ some_of (same_name name) (voters s))
        × (matches (some name) true s ≡ some_of (same_name name) (members s))
        × (leader_matches (some name) s ≡ same_name name (or_empty s.leader))
  matches-members s name n l p = (
    matches-eq s name false n l
        ∙ ap (λ t. some_of (same_name name) (str_to_list t)) (append-nil (or_empty s.sync_standby))
        ∙ ap (some_of (same_name name)) (sym (voters-eq s l)),
    matches-eq s name true n l ∙ with_leader,
    leader_matches-eq s name n l,
  )
    where
      with_leader :
          some_of
            (same_name name)
            (str_to_list (or_empty s.sync_standby ++ comma ∷ or_empty s.leader))
          ≡ some_of (same_name name) (members s)
      with_leader =
          ap (some_of (same_name name))
            (str_to_list-append (or_empty s.sync_standby) (or_empty s.leader))
          ∙ some_of-append (same_name name) (str_to_list (or_empty s.sync_standby))
              (str_to_list (or_empty s.leader))
          ∙ or_comm (some_of (same_name name) (str_to_list (or_empty s.sync_standby)))
              (some_of (same_name name) (str_to_list (or_empty s.leader)))
          ∙ rw (str_to_list-plain (or_empty s.leader) p, members-eq s l, voters-eq s l)
              (ground arith)
