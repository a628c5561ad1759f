-- ===== src/Quorum/Tests.antt =====
-- Runs of the resolver, and the theorems at concrete inputs.
use area.Common.{
  ℤ, pos, ◌≡◌, refl, [], ◌∷◌, true, Text, codes, arith, eq_text, lower, ◌+ℤ◌, ◌-ℤ◌, ltb_text,
}
use area.Collections.{
  CaseInsensitiveSet, len, contains, same_key, add, discard, of_values, union, inter, diff,
  issubset, is_less, eq_set, retain, remove,
}
use area.Quorum.Generator.{ok, pure, raise, gets, modify, emit, when, require, catch, ◌>>=◌}
use area.Quorum.Transition.{TransitionType, Transition}
use area.Quorum.Resolver.{
  Resolver, init, overlap_guaranteed, invariants_hold, check_invariants, publish_quorum,
  quorum_update, sync_update, adjust, is_unchanged,
}
use area.Quorum.Steps.{
  failover_voters, sorted, sorted_reverse, handle_sync_subset, handle_sync_superset,
  handle_safety_margin, handle_non_steady_cases, remove_with_quorum, remove_with_numsync,
  remove_gone_nodes, add_with_numsync, add_new_nodes, handle_replication_factor_change,
  handle_failover, handle_leader, reset_quorum, confirm_numsync, generate_steady,
  generate_transitions, same_type, is_restart, merge, iterate,
}
use area.Quorum.Overlap.{overlap}
use area.Quorum.Places.{publish, publish_all}
use area.Quorum.Guarantee.{failover_guaranteed}
use area.Quorum.Steady.{IsSteady, iterate-IsSteady}
use area.Quorum.Iteration.{iterate-overlap}

-- The definitions that a run computes with.
program : Unit {0}
unfolding eq_text lower ◌+ℤ◌ ◌-ℤ◌ ltb_text same_key add discard of_values union inter diff issubset
    is_less eq_set retain remove pure raise gets modify emit when require catch ◌>>=◌ init
    overlap_guaranteed invariants_hold check_invariants publish_quorum quorum_update sync_update
    adjust is_unchanged sorted sorted_reverse handle_sync_subset handle_sync_superset
    handle_safety_margin handle_non_steady_cases remove_with_quorum remove_with_numsync
    remove_gone_nodes add_with_numsync add_new_nodes handle_replication_factor_change
    handle_failover handle_leader reset_quorum confirm_numsync generate_steady generate_transitions
    same_type is_restart merge iterate publish publish_all
program = tt

abbrev a : Text
a = codes "a"

abbrev b : Text
b = codes "b"

abbrev c : Text
c = codes "c"

abbrev sync_to : ℤ → CaseInsensitiveSet → Transition
sync_to num names = record {
  transition_type = TransitionType.sync;
  leader = a;
  num = num;
  names = names;
}

abbrev quorum_of : ℤ → CaseInsensitiveSet → Transition
quorum_of num names = record {
  transition_type = TransitionType.quorum;
  leader = a;
  num = num;
  names = names;
}

abbrev restart_at : ℤ → CaseInsensitiveSet → Transition
restart_at num names = record {
  transition_type = TransitionType.restart;
  leader = a;
  num = num;
  names = names;
}

-- The first standby is added to `synchronous_standby_names` only, and the caller restarts.
add_first :
    iterate (init a (pos 0) [] (pos 0) [] (pos 0) (b ∷ []) (pos 2) a)
    ≡ ok (sync_to (pos 1) (b ∷ []) ∷ restart_at (pos 0) [] ∷ [])
unfolding program
add_first = refl

abbrev second : Resolver
second = record {
  leader = a;
  quorum = pos 0;
  voters = b ∷ [];
  numsync = pos 1;
  sync = b ∷ [];
  numsync_confirmed = pos 1;
  active = b ∷ c ∷ [];
  sync_wanted = pos 2;
  leader_wanted = a;
}

-- A second standby: first more standbys to wait for, then more voters.
add_second :
    iterate second ≡ ok (sync_to (pos 2) (b ∷ c ∷ []) ∷ quorum_of (pos 1) (b ∷ c ∷ []) ∷ [])
unfolding program
add_second = refl

overlap_example : (x : Text) × (contains x (a ∷ b ∷ []) ≡ true) × (contains x (b ∷ c ∷ []) ≡ true)
unfolding program
overlap_example =
    overlap a (pos 1) (b ∷ c ∷ []) (pos 1) (b ∷ c ∷ []) a (a ∷ b ∷ []) (b ∷ c ∷ []) refl refl
      (refl, (refl, tt)) (refl, (refl, tt)) refl refl (omega arith) (omega arith)

iterate-overlap_example :
    (x : Text) × (contains x (a ∷ b ∷ c ∷ []) ≡ true) × (contains x (b ∷ []) ≡ true)
unfolding program
iterate-overlap_example =
    iterate-overlap second (pos 0) [] (quorum_of (pos 1) (b ∷ c ∷ []) ∷ [])
      (sync_to (pos 2) (b ∷ c ∷ [])) (a ∷ b ∷ c ∷ []) (b ∷ []) add_second refl refl
      (refl, (refl, (refl, tt))) (refl, tt) refl refl (omega arith) (omega arith)

-- Two standbys, both waited for.
abbrev steady : Resolver
steady = record {
  leader = a;
  quorum = pos 0;
  voters = b ∷ c ∷ [];
  numsync = pos 2;
  sync = c ∷ b ∷ [];
  numsync_confirmed = pos 2;
  active = b ∷ c ∷ [];
  sync_wanted = pos 2;
  leader_wanted = a;
}

steady-IsSteady : IsSteady steady
unfolding program
steady-IsSteady = record {
  led = refl;
  distinct = (refl, (refl, tt));
  voters_sync = refl;
  sync_voters = refl;
  active_sync = refl;
  sync_active = refl;
  numsync = refl;
  quorum = refl;
  confirmed = omega arith;
}

iterate-IsSteady_example : iterate steady ≡ ok []
iterate-IsSteady_example = iterate-IsSteady steady steady-IsSteady

failover_guaranteed_example :
    invariants_hold (record second {
      numsync = len (failover_voters second) -ℤ second.quorum;
      sync = of_values (failover_voters second);
    })
    ≡ true
failover_guaranteed_example = failover_guaranteed second
