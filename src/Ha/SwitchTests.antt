-- ===== src/Ha/SwitchTests.antt =====
-- A switchover from `a` to `b` at time 1005, in the cycle at time 1000.
use area.Common.{ℕ, pos, ◌+ℤ◌, ◌-ℤ◌, ◌≡◌, refl, false, some, codes, eq_text, lower}
use area.Collections.{same_key}
use area.Tags.{nofailover, bool_tag, get_tag, number_of}
use area.Sync.Names.{is_space, str_to_list, split, strip_left, strip_right}
use area.Sync.State.{is_empty_state, is_set, matches, or_empty}
use area.Cluster.Member.{remote_member}
use area.Cluster.View.{Failover, has_failover, failover_len}
use area.Ha.Status.{fetch_node_status, from_api_response, is_capable, failover_limitation}
use area.Ha.Node.{
  Ha, sync_mode_is_active, is_quorum_commit_mode, quorum_commit_mode_is_active, is_lagging,
}
use area.Ha.Race.{is_name}
use area.Ha.Candidates.{
  failover_candidate, failover_leader, excluded, is_candidate, get_failover_candidates,
  is_promotable, count_promotable, check_quorum, is_failover_possible,
}
use area.Ha.Possible.{Found}
use area.Ha.Switch.{
  should_run_scheduled_action, decide, on_schedule, schedule_of, from_leader,
  process_manual_failover_from_leader,
}
use area.Ha.Demote.{IsDue, process_manual_failover_from_leader-Found}
use area.Ha.Tests.{leading, view, all_answer}

abbrev to_b : Failover ℕ
to_b = record {
  version = 3;
  leader = some (codes "a");
  candidate = some (codes "b");
  scheduled_at = some (pos 1005);
}

abbrev switching : Ha ℕ
switching = record leading { cluster = record view { failover = some to_b } }

process_manual_failover_from_leader-Found_example :
    (f : Failover ℕ) × (switching.cluster.failover ≡ some f)
    × IsDue 10 f.scheduled_at switching.time
    × Found switching all_answer
        (λ m. is_promotable switching (pos 0) (fetch_node_status all_answer m))
        (is_candidate switching false)
        switching.cluster.members
unfolding process_manual_failover_from_leader from_leader on_schedule schedule_of
    should_run_scheduled_action decide is_name is_failover_possible get_failover_candidates
    is_candidate excluded check_quorum count_promotable is_promotable has_failover failover_len
    failover_candidate failover_leader sync_mode_is_active is_empty_state is_set matches or_empty
    str_to_list split strip_left strip_right is_space same_key lower eq_text nofailover bool_tag
    get_tag number_of remote_member fetch_node_status from_api_response is_capable
    failover_limitation is_lagging ◌+ℤ◌ ◌-ℤ◌ quorum_commit_mode_is_active is_quorum_commit_mode
process_manual_failover_from_leader-Found_example =
    process_manual_failover_from_leader-Found all_answer 10 switching refl
