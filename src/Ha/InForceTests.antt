-- ===== src/Ha/InForceTests.antt =====
-- The /sync key lists `b` and `c`, and PostgreSQL waits for `b`.
use area.Common.{
  ℕ, suc, pos, ◌≡◌, refl, sym, subst, ◌||◌, arith, true, false, Option, some, List, [], ◌∷◌, every,
  Text, codes, eq_text, lower, ltb_text,
}
use area.Collections.{CaseInsensitiveSet, contains, of_values, same_key, add}
use area.Dictionary.{get_item, set_item, update}
use area.Tags.{
  get_tag, replicatefrom, nosync, nofailover, sync_priority, bool_tag, priority_tag, is_true,
  number_of,
}
use area.Sync.Names.{is_space, str_to_list, split, strip_left, strip_right}
use area.Sync.State.{SyncValue, is_set, is_empty_state, or_empty, voters}
use area.Cluster.Member.{is_running, state}
use area.Standby.Token.{
  is_ident_start, is_ident_char, is_digit, span, quoted, value_of, keyword, other, next_token,
  tokens_on, tokens,
}
use area.Standby.Parse.{
  is_plain, name_of, listed, parse_tokens, parse_sync_standby_names, empty_ssn,
}
use area.Standby.Format.{Writing}
use area.Standby.Names.{is_readable}
use area.Standby.Replicas.{
  Replica, sort_lsn, dict_of, eligible_members, streaming, should_cascade, replicas, is_before,
  sort, replica_list,
}
use area.Standby.State.{parsed}
use area.Standby.InForce.{is_usable, names_of}
use area.Standby.Implements.{Look, Running, at, handler}
use area.Standby.Tests.{pg, limits, fresh, cluster}
use area.Ha.Node.{Ha}
use area.Ha.Multisync.{Replication, process_multisync_replication}
use area.Ha.KeySteps.{IsKept}
use area.Ha.KeyInForce.{process_multisync_replication-InForce}
use area.Ha.Tests.{leading, settings}

-- Every write is accepted.
abbrev accept : SyncValue → Option ℕ → ℕ → Option ℕ × ℕ
accept value version n = (some (suc n), suc n)

abbrev primary : Ha ℕ
primary = record leading { settings = record settings { is_quorum_commit_mode = false } }

abbrev writing : Writing
writing = record {
  supports_multiple_sync = true;
  supports_quorum_commit = true;
  is_quorum_commit_mode = false;
}

abbrev seen : ℕ → Look ℕ
seen n = record { before = pg; after = pg; cluster = cluster; is_reloaded = true }

abbrev found : List Replica
found =
    record {
      pid = pos 7;
      application_name = codes "b";
      sync_state = codes "sync";
      lsn = pos 7;
      nofailover = false;
      sync_priority = pos 1;
    }
    ∷ record {
      pid = pos 8;
      application_name = codes "c";
      sync_state = codes "async";
      lsn = pos 8;
      nofailover = false;
      sync_priority = pos 1;
    }
    ∷ []

found-eq :
    (value : Text)
    → replica_list 1000 (at 1000 limits writing seen value pg) cluster.members ≡ some found
unfolding replica_list eligible_members streaming dict_of update set_item get_item same_key
    is_running state nosync nofailover sync_priority bool_tag priority_tag get_tag is_true number_of
    replicas sort_lsn should_cascade replicatefrom is_set or_empty sort is_before ltb_text eq_text
    lower
found-eq value = refl

found_usable : every (λ r. is_usable r.application_name) found ≡ true
unfolding is_usable is_readable is_plain is_ident_start is_ident_char is_digit keyword eq_text lower
found_usable = refl

usable :
    (n : ℕ) (value : Text) (rs : List Replica)
    → replica_list 1000 (at 1000 limits writing seen value (seen n).after) (seen n).cluster.members
      ≡ some rs
    → every (λ r. is_usable r.application_name) rs ≡ true
usable n value rs e =
    subst (λ (rs : List Replica). every (λ r. is_usable r.application_name) rs ≡ true)
      (same (found-eq value) e) found_usable
  where
    same : {o : Option (List Replica)} {xs ys : List Replica} → o ≡ some xs → o ≡ some ys → xs ≡ ys
    same e f = cc

abbrev only_b : CaseInsensitiveSet
only_b = codes "b" ∷ []

in_force : names_of (codes "b") ≡ only_b
unfolding parsed parse_sync_standby_names parse_tokens listed name_of tokens tokens_on next_token
    keyword other is_space is_ident_start is_ident_char is_digit span quoted value_of empty_ssn
    eq_text lower add
in_force = refl

of_nothing : fresh.ssn_data ≡ parsed fresh.synchronous_standby_names
unfolding parsed parse_sync_standby_names parse_tokens tokens tokens_on empty_ssn
of_nothing = refl

in_key :
    (x : Text)
    → contains x only_b ≡ true
    → (same_key x (codes "b") || (same_key x (codes "c") || false)) ≡ true
in_key x e = ground arith

abbrev before : Replication ℕ (Running 1000 limits writing seen refl refl usable)
before = record {
  store = 0;
  world = (record { value = codes "b"; handler = fresh; looks = 0 }, (refl, of_nothing));
  standbys = only_b;
  history = [];
}

process_multisync_replication-InForce_example :
    IsKept (handler 1000 limits writing seen refl refl usable) accept (
      process_multisync_replication
        (handler 1000 limits writing seen refl refl usable)
        accept
        primary
        before)
unfolding handler voters is_empty_state is_set str_to_list split strip_left strip_right is_space
    or_empty of_values add same_key eq_text lower
process_multisync_replication-InForce_example =
    process_multisync_replication-InForce 1000 limits writing seen accept primary refl refl usable
      before ((λ x e. subst (λ s. contains x s ≡ true) (sym in_force) e), tt) in_key
