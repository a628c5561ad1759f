-- ===== src/Standby/Tests.antt =====
-- A primary `a` with the standbys `b` and `c`, of which `b` is synchronous.
use area.Common.{
  ℕ, ◌<◌, ℤ, pos, negsuc, ◌-ℤ◌, ◌+ℤ◌, ◌≤ℤ◌, ◌≡◌, refl, sym, ap, arith, Bool, true, false, Option,
  none, some, [], ◌∷◌, codes, eq_text, ltb_text, lower, if◌then◌else◌,
}
use Prim.Native.String.{String}
use area.Collections.{add, same_key, len}
use area.Collections.Within.{IsWithin}
use area.Dictionary.{Entry, CaseInsensitiveDict, get_item, set_item, update}
use area.Tags.{
  Tag, Tags, get_tag, replicatefrom, nosync, nofailover, sync_priority, bool_tag, priority_tag,
  is_true, number_of,
}
use area.Sync.Names.{is_space}
use area.Sync.State.{is_set, or_empty, matches, is_empty_state}
use area.Sync.Handler.{Current}
use area.Cluster.Member.{Member, is_running, state}
use area.Cluster.View.{Cluster}
use area.Standby.Token.{
  is_ident_start, is_ident_char, is_digit, span, quoted, value_of, keyword, other, next_token,
  tokens_on, tokens,
}
use area.Standby.Parse.{
  SyncType, Ssn, is_plain, quote_standby_name, name_of, listed, parse_tokens,
  parse_sync_standby_names, empty_ssn,
}
use area.Standby.Replicas.{
  Row, Postgresql, sort_lsn, dict_of, eligible_members, streaming, should_cascade, replicas,
  is_before, sort, max_lsn, replica_list,
}
use area.Standby.State.{
  Handler, Limits, parsed, handle_change, is_caught_up, ready_one, process_replica_readiness,
  is_near, choose_one, choose, promotable_first, current_state,
}
use area.Standby.Chosen.{current_state-confirmed}
use area.Standby.Handled.{IsHandled}
use area.Standby.Bounded.{most, node_count, current_state-bounded}
use area.Standby.Cascade.{Upstream, should_cascade-returns, should_cascade-cycle}
use area.Standby.Keyword.{parse-quote_standby_name}

abbrev pub tag : String → String → Tag
tag name value = record {
  name = codes name;
  value = some (record { truth = true; number = none; flag = none; text = codes value });
}

abbrev pub member : String → Tags → Member
member name tags = record {
  name = codes name;
  tags = tags;
  api_url = none;
  conn_url = none;
  member_state = some (codes "running");
  lsn = none;
}

abbrev entry : Member → Entry Member
entry m = record { key = m.name; value = m }

parse-quote_standby_name_example :
    parse_sync_standby_names (quote_standby_name (codes "anya")) ≡ none
unfolding is_ident_start is_plain is_ident_char is_digit
parse-quote_standby_name_example = parse-quote_standby_name b'a' [] refl refl

-- Each of the two replicates from the other.
abbrev around : CaseInsensitiveDict Member
around =
    entry (member "b" (tag "replicatefrom" "c" ∷ []))
    ∷ entry (member "c" (tag "replicatefrom" "b" ∷ []))
    ∷ []

should_cascade-cycle_example :
    should_cascade 1000 around [] (member "b" (tag "replicatefrom" "c" ∷ [])) ≡ none
unfolding is_set replicatefrom get_tag eq_text get_item or_empty same_key lower
should_cascade-cycle_example =
    should_cascade-cycle around [] 1000 (member "b" (tag "replicatefrom" "c" ∷ []))
      (member "c" (tag "replicatefrom" "b" ∷ [])) (refl, refl) (refl, refl)

abbrev plain_c : CaseInsensitiveDict Member
plain_c = entry (member "c" []) ∷ []

abbrev rank : Member → ℕ
rank m = if is_set (replicatefrom m.tags) then 1 else 0

abbrev rank_of : Option Member → ℕ
rank_of none = 0
rank_of (some m) = rank m

down_if : (b : Bool) (n : Member) → (if b then some (member "c" []) else none) ≡ some n → rank n ≡ 0
unfolding is_set replicatefrom get_tag
down_if true n e = sym (ap rank_of e)
down_if false n e = sym (ap rank_of e)

down : (m n : Member) → Upstream plain_c m n → rank n < rank m
unfolding get_item
down m n (s, e) =
    rw (s, down_if (same_key (or_empty (replicatefrom m.tags)) (codes "c")) n e) (omega arith)

should_cascade-returns_example :
    (b : Bool) × (should_cascade 2 plain_c [] (member "b" (tag "replicatefrom" "c" ∷ [])) ≡ some b)
unfolding is_set replicatefrom get_tag eq_text
should_cascade-returns_example =
    should_cascade-returns plain_c [] rank down 2 (member "b" (tag "replicatefrom" "c" ∷ []))
      (omega arith)

abbrev pub row : String → String → ℤ → Row
row name sync_state lsn = record {
  pid = lsn;
  application_name = codes name;
  sync_state = codes sync_state;
  write_lsn = some lsn;
  flush_lsn = some lsn;
  replay_lsn = some lsn;
}

abbrev pub pg : Postgresql
pg = record {
  name = codes "a";
  synchronous_commit = codes "on";
  synchronous_standby_names = codes "b";
  pg_stat_replication = row "b" "sync" (pos 7) ∷ row "c" "async" (pos 8) ∷ [];
  last_operation = pos 7;
  supports_multiple_sync = true;
  supports_quorum_commit = true;
}

abbrev pub limits : Limits
limits = record {
  is_quorum_commit_mode = false;
  synchronous_node_count = pos 1;
  maximum_lag_on_syncnode = negsuc 0;
}

abbrev pub fresh : Handler
fresh = record {
  synchronous_standby_names = [];
  ssn_data = empty_ssn;
  primary_flush_lsn = pos 0;
  ready_replicas = [];
}

abbrev only_b : Ssn
only_b = record {
  sync_type = SyncType.priority;
  has_star = false;
  num = pos 1;
  members = codes "b" ∷ [];
}

abbrev pub cluster : Cluster ℕ
cluster = record {
  initialize = none;
  leader = none;
  status = record { last_lsn = pos 0; slots = none; retain_slots = [] };
  members = member "a" [] ∷ member "b" [] ∷ member "c" [] ∷ [];
  failover = none;
  sync = record { version = none; leader = none; sync_standby = none; quorum = pos 0 };
  history = none;
  failsafe = none;
}

abbrev told : Current
told = record {
  numsync = pos 1;
  sync = codes "b" ∷ [];
  sync_confirmed = codes "b" ∷ [];
  active = codes "b" ∷ [];
}

abbrev after : Handler
after = record {
  synchronous_standby_names = codes "b";
  ssn_data = only_b;
  primary_flush_lsn = pos 7;
  ready_replicas = record { key = codes "b"; value = pos 7 } ∷ [];
}

told_state : current_state 1000 limits pg pg cluster fresh ≡ some (told, after)
unfolding current_state handle_change parsed parse_sync_standby_names parse_tokens listed name_of
    tokens tokens_on next_token keyword other is_space is_ident_start is_ident_char is_digit span
    quoted value_of empty_ssn eq_text lower replica_list eligible_members streaming dict_of update
    set_item get_item same_key is_running state nosync nofailover sync_priority bool_tag
    priority_tag get_tag is_true number_of replicas sort_lsn should_cascade replicatefrom is_set
    or_empty sort is_before max_lsn process_replica_readiness ready_one is_caught_up matches
    is_empty_state choose choose_one is_near promotable_first add ltb_text ◌-ℤ◌ ◌+ℤ◌
told_state = refl

current_state-confirmed_example :
    IsWithin told.sync_confirmed told.active
    × IsWithin told.sync_confirmed after.ssn_data.members
    × IsHandled after
current_state-confirmed_example =
    current_state-confirmed 1000 limits pg pg cluster fresh told after refl told_state

current_state-bounded_example : len told.active ≤ℤ most (node_count limits pg)
current_state-bounded_example =
    current_state-bounded 1000 limits pg pg cluster fresh told after refl told_state
