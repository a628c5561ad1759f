-- ===== src/Quorum/Steps.antt =====
-- The phases of `_generate_transitions`, and the iteration over the resolver.
use area.Common.{
  ℤ, pos, negsuc, ◌+ℤ◌, ◌-ℤ◌, ltb_ℤ, eqb_ℤ, min_ℤ, max_ℤ, nonzero, suc, ◌-◌, List, [], ◌∷◌, Bool,
  true, false, ◌&&◌, ◌||◌, none, some, Text, eq_text, ltb_text, length, take, is_empty,
  if◌then◌else◌,
}
use area.Collections.{
  CaseInsensitiveSet, of_values, len, union, inter, diff, is_less, eq_set, retain, remove,
}
use area.Quorum.Generator.{
  Result, ok, err, Gen, pure, gets, modify, when, require, catch, ◌>>=◌, ◌>>◌,
}
use area.Quorum.Transition.{TransitionType, Transition}
use area.Quorum.Resolver.{
  Resolver, nonempty, singleton, check_invariants, quorum_update, sync_update,
}

abbrev pub Action : Type 0
Action = Gen Resolver Transition (Unit {0})

-- `xs[:k]`: a negative bound counts from the end.
abbrev slice_to {ℓ} : {A : Type ℓ} → ℤ → List A → List A
slice_to (pos k) xs = take k xs
slice_to (negsuc k) xs = take (length xs - suc k) xs

insert_sorted : Text → List Text → List Text
insert_sorted v [] = v ∷ []
insert_sorted v (w ∷ ws) =
    let rest = insert_sorted v ws in if ltb_text w v then w ∷ rest else v ∷ w ∷ ws

-- `sorted(xs)`
unfoldable pub sorted : List Text → List Text
unfolding insert_sorted
sorted [] = []
sorted (v ∷ vs) = insert_sorted v (sorted vs)

reverse_onto : List Text → List Text → List Text
reverse_onto acc [] = acc
reverse_onto acc (v ∷ vs) = reverse_onto (v ∷ acc) vs

-- `sorted(xs, reverse=True)`; the values of a set differ from one another.
unfoldable pub sorted_reverse : List Text → List Text
unfolding sorted reverse_onto
sorted_reverse vs = reverse_onto [] (sorted vs)

-- Case 1: `synchronous_standby_names` is a subset of the DCS state.
unfoldable pub handle_sync_subset : Action
handle_sync_subset = do
  self ← gets (λ self. self)
  let gone = diff self.voters (union self.sync self.active)
  when (nonempty gone) (
      quorum_update (len self.voters -ℤ len gone -ℤ self.numsync)
        (of_values (diff self.voters gone)) none (is_empty (diff self.sync self.active)))
  self ← gets (λ self. self)
  let add_to_sync = diff (inter self.voters self.active) self.sync
  when (nonempty add_to_sync) (sync_update self.numsync (of_values (union self.sync add_to_sync)))

-- Case 2: `synchronous_standby_names` is a superset of the DCS state.
unfoldable pub handle_sync_superset : Action
handle_sync_superset = do
  self ← gets (λ self. self)
  let gone = diff self.sync self.active
  let rest = of_values (diff self.sync gone)
  when
      (nonempty gone
        && nonempty rest
        && (is_empty self.voters || nonempty (inter rest self.voters)))
      (sync_update (min_ℤ self.numsync (len self.sync -ℤ len gone)) rest)
  self ← gets (λ self. self)
  let add_to_voters = inter (diff self.sync self.voters) self.active
  let voters = of_values (union self.voters add_to_voters)
  when (nonempty add_to_voters) (quorum_update (len voters -ℤ self.numsync) voters none true)
  self ← gets (λ self. self)
  let dead = diff self.sync self.voters
  when (nonempty dead) (
      sync_update (min_ℤ self.numsync (len self.sync -ℤ len dead))
        (of_values (diff self.sync dead)))

-- Cases 3 and 4: in the middle of changing the replication factor.
unfoldable pub handle_safety_margin : Action
handle_safety_margin = do
  self ← gets (λ self. self)
  let nodes = len (union self.voters self.sync)
  let margin = self.quorum +ℤ min_ℤ self.numsync self.numsync_confirmed -ℤ nodes
  let margin_sync = self.quorum +ℤ self.numsync -ℤ nodes
  if ltb_ℤ (pos 0) margin
      then (if ltb_ℤ self.sync_wanted self.numsync
          then sync_update (max_ℤ self.sync_wanted (len self.voters -ℤ self.quorum)) self.sync
          else quorum_update (len self.sync -ℤ self.numsync) self.voters none true)
      else when
          (eqb_ℤ self.numsync self.sync_wanted
            && ltb_ℤ (pos 0) margin_sync
            && ltb_ℤ self.numsync_confirmed self.numsync)
          (quorum_update (len self.sync -ℤ self.numsync) self.voters none true)

unfoldable pub handle_non_steady_cases : Action
handle_non_steady_cases = do
  self ← gets (λ self. self)
  if is_less self.sync self.voters
      then handle_sync_subset
      else when (is_less self.voters self.sync) handle_sync_superset
  self ← gets (λ self. self)
  require (eq_set self.voters self.sync)
  handle_safety_margin

-- The nodes that go while the quorum can be reduced; yields what is left to remove.
unfoldable pub remove_with_quorum : CaseInsensitiveSet → Gen Resolver Transition CaseInsensitiveSet
remove_with_quorum to_remove = do
  self ← gets (λ self. self)
  let gone = of_values (slice_to self.quorum (sorted_reverse to_remove))
  let sync = of_values (diff self.sync gone)
  let wanted = if ltb_ℤ self.numsync self.sync_wanted then self.sync_wanted else self.numsync
  sync_update (min_ℤ wanted (len sync)) sync
  self ← gets (λ self. self)
  let voters = of_values (diff self.voters gone)
  let left = retain to_remove self.sync
  quorum_update (len voters -ℤ self.numsync) voters none (is_empty left)
  pure left

-- The nodes that go with a decrease of `numsync`.
unfoldable pub remove_with_numsync : CaseInsensitiveSet → Action
remove_with_numsync to_remove = do
  self ← gets (λ self. self)
  require (eqb_ℤ self.quorum (pos 0))
  let numsync = self.numsync -ℤ len to_remove
  let sync = of_values (diff self.sync to_remove)
  let voters = of_values (diff self.voters to_remove)
  let sync_decrease = numsync -ℤ min_ℤ self.sync_wanted (len sync)
  let quorum = if nonzero sync_decrease then min_ℤ sync_decrease (len voters -ℤ pos 1) else pos 0
  quorum_update quorum voters none false
  sync_update numsync sync

unfoldable pub remove_gone_nodes : Action
remove_gone_nodes = do
  self ← gets (λ self. self)
  let to_remove = diff self.sync self.active
  if nonempty to_remove && eq_set self.sync to_remove
      then (do quorum_update (pos 0) (of_values []) none false; sync_update (pos 0) (of_values []))
      else when (nonempty to_remove) (do
        left ← (if nonzero self.quorum then remove_with_quorum to_remove else pure to_remove)
        when (nonempty left) (remove_with_numsync left))

-- The nodes that first bring `numsync` up; yields what is left to add.
unfoldable pub add_with_numsync :
    CaseInsensitiveSet → ℤ → ℤ → Gen Resolver Transition CaseInsensitiveSet
add_with_numsync to_add sync_wanted increase_by = do
  self ← gets (λ self. self)
  let some_nodes = of_values (slice_to increase_by (sorted to_add))
  let add = if nonempty self.sync then some_nodes else to_add
  let increase_numsync_by = if nonempty self.sync then len add else increase_by
  sync_update (self.numsync +ℤ increase_numsync_by) (of_values (union self.sync add))
  self ← gets (λ self. self)
  let voters = of_values (union self.voters add)
  quorum_update (len voters -ℤ sync_wanted) voters none true
  self ← gets (λ self. self)
  pure (remove to_add self.sync)

unfoldable pub add_new_nodes : Action
add_new_nodes = do
  self ← gets (λ self. self)
  let to_add = diff self.active self.sync
  let sync_wanted = min_ℤ self.sync_wanted (len (union self.sync to_add))
  let increase_by = sync_wanted -ℤ self.numsync
  when (nonempty to_add) (do
    left ←
        (if ltb_ℤ (pos 0) increase_by
          then add_with_numsync to_add sync_wanted increase_by
          else pure to_add)
    self ← gets (λ self. self)
    let voters = of_values (union self.voters left)
    when (nonempty left) (do
      quorum_update (len voters -ℤ sync_wanted) voters none
          (ltb_ℤ self.numsync_confirmed sync_wanted)
      self ← gets (λ self. self)
      sync_update sync_wanted (of_values (union self.sync left))))

unfoldable pub handle_replication_factor_change : Action
handle_replication_factor_change = do
  self ← gets (λ self. self)
  let increase = min_ℤ self.sync_wanted (len self.sync) -ℤ self.numsync
  let numsync = self.numsync +ℤ increase
  if ltb_ℤ (pos 0) increase
      then (do
        sync_update numsync self.sync
        self ← gets (λ self. self)
        quorum_update (len self.voters -ℤ self.numsync) self.voters none true)
      else when (ltb_ℤ increase (pos 0)) (do
        when (ltb_ℤ (self.quorum -ℤ increase) (len self.voters)) (
            quorum_update (len self.voters -ℤ self.numsync -ℤ increase) self.voters none
              (ltb_ℤ self.numsync_confirmed self.sync_wanted))
        self ← gets (λ self. self)
        sync_update (self.numsync +ℤ increase) self.sync)

-- The voters after a failover: without the new leader, and with the old one.
abbrev pub failover_voters : Resolver → CaseInsensitiveSet
failover_voters self =
    union (diff self.voters (singleton self.leader_wanted)) (singleton self.leader)

-- The branch of the `try` block after a failover; `true` is its early `return`.
unfoldable pub handle_failover : Gen Resolver Transition Bool
handle_failover = do
  self ← gets (λ self. self)
  let voters = failover_voters self
  when (is_empty self.sync) (sync_update (len voters -ℤ self.quorum) (of_values voters))
  self ← gets (λ self. self)
  quorum_update self.quorum (of_values voters) (some self.leader_wanted) true
  self ← gets (λ self. self)
  pure (is_empty (inter self.sync self.active))

-- The `try` block: the transitions of a failover, or the check of the invariants.
unfoldable pub handle_leader : Gen Resolver Transition Bool
handle_leader = do
  self ← gets (λ self. self)
  if eq_text self.leader_wanted self.leader
      then (do check_invariants; pure false)
      else handle_failover

-- Its `except QuorumError` branch.
unfoldable pub reset_quorum : Gen Resolver Transition Bool
reset_quorum = do
  self ← gets (λ self. self)
  quorum_update (len self.sync -ℤ self.numsync) self.sync none true
  pure false

-- `numsync_confirmed` could be 0 after a restart or a failover.
unfoldable pub confirm_numsync : Resolver → Resolver
confirm_numsync self =
    let common = inter self.sync self.active in
    if eqb_ℤ self.numsync_confirmed (pos 0) && nonempty common
    then record self { numsync_confirmed = min_ℤ (len common) (len self.voters -ℤ self.quorum) }
    else self

unfoldable pub generate_steady : Action
generate_steady = do
  self ← gets (λ self. self)
  require (eq_text self.leader self.leader_wanted)
  modify confirm_numsync
  handle_non_steady_cases
  remove_gone_nodes
  add_new_nodes
  handle_replication_factor_change

-- `_generate_transitions`
unfoldable pub generate_transitions : Action
generate_transitions = do
  returned ← catch handle_leader reset_quorum
  if returned then pure tt else generate_steady

unfoldable pub same_type : TransitionType → TransitionType → Bool
same_type TransitionType.sync TransitionType.sync = true
same_type TransitionType.quorum TransitionType.quorum = true
same_type TransitionType.restart TransitionType.restart = true
same_type _ _ = false

unfoldable pub is_restart : TransitionType → Bool
is_restart TransitionType.restart = true
is_restart _ = false

-- Of transitions of one type in a row only the last is yielded, and nothing after a restart.
unfoldable pub merge : List Transition → List Transition
merge [] = []
merge (t ∷ []) = t ∷ []
merge (t ∷ u ∷ ts) =
    let rest = merge (u ∷ ts) in
    if same_type t.transition_type u.transition_type
    then rest
    else if is_restart t.transition_type
    then t ∷ []
    else t ∷ rest

-- `__iter__`: an exception ends it before anything is yielded.
unfoldable pub merge_result : Result (Unit {0}) → List Transition → Result (List Transition)
merge_result (ok _) ts = ok (merge ts)
merge_result (err e) ts = err e

unfoldable pub iterate : Resolver → Result (List Transition)
unfolding merge_result merge generate_transitions
iterate self =
    let (outcome, run) = generate_transitions (record { self = self; yielded = [] }) in
    merge_result outcome run.yielded
