-- ===== src/Quorum/SafeSteps.antt =====
-- Every phase of `_generate_transitions` behind the failover branch keeps the resolver in step.
use area.Common.{ℤ, pos, eqb_ℤ, ◌&&◌, Bool-cases, inl, inr, Bool, Option, Text}
use area.Collections.{CaseInsensitiveSet, inter}
use area.Quorum.Generator.{Gen, Run, modify}
use area.Quorum.Generator.Keeps.{Keeps, keeps_rules}
use area.Quorum.Transition.{Transition}
use area.Quorum.Resolver.{Resolver, nonempty, sync_update, quorum_update}
use area.Quorum.Places.{Places}
use area.Quorum.SafeUpdates.{InStep, Anything, sync_update-Tracks, quorum_update-Tracks}
use area.Quorum.Steps.{
  confirm_numsync, handle_sync_subset, handle_sync_superset, handle_safety_margin,
  handle_non_steady_cases, remove_with_quorum, remove_with_numsync, remove_gone_nodes,
  add_with_numsync, add_new_nodes, handle_replication_factor_change, generate_steady,
}

module _ (leader_wanted : Text) (min_sync : ℤ) (start : Places) where
  abbrev Safe : {A : Type 0} → Gen Resolver Transition A → Type 0
  Safe m = Keeps (InStep leader_wanted min_sync start) (Anything leader_wanted min_sync start) m

  sync_update-Safe : (numsync : ℤ) (sync : CaseInsensitiveSet) → Safe (sync_update numsync sync)
  sync_update-Safe = sync_update-Tracks leader_wanted min_sync start

  quorum_update-Safe :
      (quorum : ℤ) (voters : CaseInsensitiveSet) (leader : Option Text) (adjust : Bool)
      → Safe (quorum_update quorum voters leader adjust)
  quorum_update-Safe = quorum_update-Tracks leader_wanted min_sync start

  ruleset safe_rules = (keeps_rules, sync_update-Safe, quorum_update-Safe)

  sync_subset-Safe : Safe handle_sync_subset
  unfolding handle_sync_subset
  sync_subset-Safe = search safe_rules

  sync_superset-Safe : Safe handle_sync_superset
  unfolding handle_sync_superset
  sync_superset-Safe = search safe_rules depth 12

  safety_margin-Safe : Safe handle_safety_margin
  unfolding handle_safety_margin
  safety_margin-Safe = search safe_rules

  non_steady_cases-Safe : Safe handle_non_steady_cases
  unfolding handle_non_steady_cases
  non_steady_cases-Safe =
      search (safe_rules, sync_subset-Safe, sync_superset-Safe, safety_margin-Safe) depth 9

  with_quorum-Safe : (to_remove : CaseInsensitiveSet) → Safe (remove_with_quorum to_remove)
  unfolding remove_with_quorum
  with_quorum-Safe to_remove = search safe_rules depth 9

  with_numsync-Safe : (to_remove : CaseInsensitiveSet) → Safe (remove_with_numsync to_remove)
  unfolding remove_with_numsync
  with_numsync-Safe to_remove = search safe_rules depth 9

  gone_nodes-Safe : Safe remove_gone_nodes
  unfolding remove_gone_nodes
  gone_nodes-Safe = search (safe_rules, with_quorum-Safe, with_numsync-Safe) depth 9

  add_numsync-Safe :
      (to_add : CaseInsensitiveSet) (sync_wanted increase_by : ℤ)
      → Safe (add_with_numsync to_add sync_wanted increase_by)
  unfolding add_with_numsync
  add_numsync-Safe to_add sync_wanted increase_by = search safe_rules depth 9

  new_nodes-Safe : Safe add_new_nodes
  unfolding add_new_nodes
  new_nodes-Safe = search (safe_rules, add_numsync-Safe) depth 12

  factor_change-Safe : Safe handle_replication_factor_change
  unfolding handle_replication_factor_change
  factor_change-Safe = search safe_rules depth 9

  -- `numsync_confirmed` is no part of what is written.
  confirmed-InStep :
      (r : Run Resolver Transition) (n : ℤ)
      → InStep leader_wanted min_sync start r
      → InStep leader_wanted min_sync start
          (record r { self = record r.self { numsync_confirmed = n } })
  confirmed-InStep r n h = record {
    sync_tracks = record {
      wanted = h.sync_tracks.wanted;
      sync = h.sync_tracks.sync;
      numsync = h.sync_tracks.numsync;
      safe = h.sync_tracks.safe;
    };
    leader = h.leader;
    quorum = h.quorum;
    voters = h.voters;
  }

  confirm-Safe : Safe (modify confirm_numsync)
  unfolding modify confirm_numsync
  confirm-Safe = record {
    at = λ r h.
        elim (Bool-cases
          (eqb_ℤ r.self.numsync_confirmed (pos 0) && nonempty (inter r.self.sync r.self.active))) [
            | inl e ↦ rw e (confirmed-InStep r _ h)
            | inr e ↦ rw e h
          ];
  }

  pub generate_steady-Safe : Safe generate_steady
  unfolding generate_steady
  generate_steady-Safe =
      search
        (
          safe_rules, confirm-Safe, non_steady_cases-Safe, gone_nodes-Safe, new_nodes-Safe,
          factor_change-Safe,
        )
        depth 12
