-- ===== src/Quorum/Resolver.antt =====
-- The resolver's state, its invariant check, and the updates of the two places.
use area.Common.{
  ℤ, pos, ◌+ℤ◌, ◌-ℤ◌, ltb_ℤ, leb_ℤ, eqb_ℤ, min_ℤ, max_ℤ, List, [], ◌∷◌, Bool, not, ◌&&◌, ◌||◌,
  Option, none, some, Text, eq_text, length, is_empty, if◌then◌else◌,
}
use area.Collections.{CaseInsensitiveSet, of_values, len, union, issubset, eq_set}
use area.Quorum.Transition.{TransitionType, Transition}
use area.Quorum.Generator.{
  quorum_error, Result, Gen, pure, raise, gets, modify, emit, when, ◌>>=◌, ◌>>◌,
}

pub record Resolver : Type 0 where
  pub leader : Text
  pub quorum : ℤ
  pub voters : CaseInsensitiveSet
  pub numsync : ℤ
  pub sync : CaseInsensitiveSet
  pub numsync_confirmed : ℤ
  pub active : CaseInsensitiveSet
  pub sync_wanted : ℤ
  pub leader_wanted : Text

-- The arguments stand in the order of the constructor of the source.
unfoldable pub init : Text → ℤ → List Text → ℤ → List Text → ℤ → List Text → ℤ → Text → Resolver
init leader quorum voters numsync sync numsync_confirmed active sync_wanted leader_wanted = record {
  leader = leader;
  quorum = quorum;
  voters = of_values voters;
  numsync = min_ℤ numsync (pos (length sync));
  sync = of_values sync;
  numsync_confirmed = numsync_confirmed;
  active = of_values active;
  sync_wanted = sync_wanted;
  leader_wanted = leader_wanted;
}

-- The truth value of a set.
abbrev pub nonempty : CaseInsensitiveSet → Bool
nonempty s = not (is_empty s)

abbrev pub singleton : Text → CaseInsensitiveSet
singleton v = of_values (v ∷ [])

-- The two tests of `check_invariants`, over the two places and the desired leader.
unfoldable pub overlap_guaranteed :
    Text → ℤ → CaseInsensitiveSet → ℤ → CaseInsensitiveSet → Text → Bool
overlap_guaranteed leader quorum voters numsync sync leader_wanted =
    let all_voters = of_values (union voters (singleton leader)) in
    let all_sync = of_values (union sync (singleton leader_wanted)) in
    (is_empty voters || leb_ℤ (len (union all_voters all_sync)) (quorum +ℤ numsync +ℤ pos 1))
    && (issubset all_voters all_sync || issubset all_sync all_voters)

-- `check_invariants`
unfoldable pub invariants_hold : Resolver → Bool
unfolding overlap_guaranteed
invariants_hold r = overlap_guaranteed r.leader r.quorum r.voters r.numsync r.sync r.leader_wanted

unfoldable pub check_invariants : Gen Resolver Transition (Unit {0})
check_invariants r = (if invariants_hold r.self then Result.ok tt else Result.err quorum_error, r)

abbrev pub transition :
    TransitionType → (Resolver → ℤ) → (Resolver → CaseInsensitiveSet) → Resolver → Transition
transition t num names self = record {
  transition_type = t;
  leader = self.leader;
  num = num self;
  names = names self;
}

-- `(self.leader, quorum, voters) == (old_leader, self.quorum, self.voters)`
unfoldable pub is_unchanged : Resolver → Text → ℤ → CaseInsensitiveSet → Bool
is_unchanged self leader quorum voters =
    eq_text leader self.leader && eqb_ℤ quorum self.quorum && eq_set voters self.voters

-- The leader, quorum and voters that `quorum_update` settles on.
unfoldable pub adjust :
    Resolver → ℤ → CaseInsensitiveSet → Option Text → Bool → Text × ℤ × CaseInsensitiveSet
adjust self quorum voters (some leader) adjust_quorum = (leader, quorum, voters)
adjust self quorum voters none adjust_quorum =
    if eqb_ℤ self.numsync_confirmed (pos 0) && is_empty self.voters
    then (self.leader, pos 0, of_values [])
    else if adjust_quorum
    then (self.leader, quorum +ℤ max_ℤ (self.numsync -ℤ self.numsync_confirmed) (pos 0), voters)
    else (self.leader, quorum, voters)

unfoldable pub publish_quorum :
    Bool → Text → ℤ → CaseInsensitiveSet → Gen Resolver Transition (Unit {0})
unfolding when
publish_quorum unchanged leader quorum voters = do
  modify (λ self. record self { leader = leader })
  when unchanged
      (emit (transition TransitionType.restart (λ self. self.quorum) (λ self. self.voters)))
  modify (λ self. record self { quorum = quorum; voters = voters })
  check_invariants
  emit (transition TransitionType.quorum (λ self. self.quorum) (λ self. self.voters))

unfoldable pub quorum_update :
    ℤ → CaseInsensitiveSet → Option Text → Bool → Gen Resolver Transition (Unit {0})
quorum_update quorum voters leader adjust_quorum =
    if ltb_ℤ quorum (pos 0)
    then raise quorum_error
    else if ltb_ℤ (pos 0) quorum && leb_ℤ (len voters) quorum
    then raise quorum_error
    else do
      self ← gets (λ self. self)
      let new = adjust self quorum voters leader adjust_quorum
      let unchanged = is_unchanged self new.0 new.1 new.2
      if unchanged && nonempty self.voters
          then pure tt
          else publish_quorum unchanged new.0 new.1 new.2

unfoldable pub sync_update : ℤ → CaseInsensitiveSet → Gen Resolver Transition (Unit {0})
sync_update numsync sync =
    if ltb_ℤ numsync (pos 0)
    then raise quorum_error
    else if ltb_ℤ (len sync) numsync
    then raise quorum_error
    else do
      modify (λ self. record self { numsync = numsync; sync = sync })
      check_invariants
      emit (transition TransitionType.sync (λ self. self.numsync) (λ self. self.sync))
