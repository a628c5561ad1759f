-- ===== src/Quorum/Iteration.antt =====
-- Iterating over the resolver: every state that the two places pass through keeps the guarantee.
use area.Common.{ℤ, ◌<ℤ◌, ◌≡◌, refl, sym, ap, ◌∙◌, List, [], ◌∷◌, ◌++◌, true, false, Text, arith}
use area.Collections.{CaseInsensitiveSet, contains, len, union}
use area.Collections.Size.{IsDistinct, Includes}
use area.Quorum.Generator.{Result, ok, err, Run}
use area.Quorum.Generator.Keeps.{Outcome}
use area.Quorum.Transition.{Transition}
use area.Quorum.Resolver.{Resolver, nonempty, singleton}
use area.Quorum.Steps.{generate_transitions, merge_result, iterate, is_restart}
use area.Quorum.Overlap.{overlap}
use area.Quorum.Places.{
  Places, publish_all, is_guaranteed, safe_trace, safe_trace-append, publish_all-emit,
  merge-safe_trace,
}
use area.Quorum.SafeUpdates.{InStep, Anything}
use area.Quorum.SafeFailover.{generate_transitions-Safe}

-- The places that a resolver describes.
abbrev pub places : Resolver → Places
places self = record {
  leader = self.leader;
  quorum = self.quorum;
  voters = self.voters;
  numsync = self.numsync;
  sync = self.sync;
}

start-InStep :
    (self : Resolver) (min_sync : ℤ)
    → InStep self.leader_wanted min_sync (places self) (record { self = self; yielded = [] })
unfolding publish_all safe_trace
start-InStep self min_sync = record {
  sync_tracks = record { wanted = refl; sync = refl; numsync = ground arith; safe = refl };
  leader = refl;
  quorum = refl;
  voters = refl;
}

finish :
    (self : Resolver) (min_sync : ℤ) (outcome : Result (Unit {0})) (run : Run Resolver Transition)
    (ts : List Transition)
    → Outcome
        (InStep self.leader_wanted min_sync (places self))
        (Anything self.leader_wanted min_sync (places self))
        outcome
        run
    → merge_result outcome run.yielded ≡ ok ts
    → safe_trace self.leader_wanted min_sync (places self) ts ≡ true
unfolding merge_result
finish self min_sync (ok _) run ts h e =
    ap (safe_trace self.leader_wanted min_sync (places self)) (sym (cc))
    ∙ merge-safe_trace self.leader_wanted min_sync (places self) run.yielded h.sync_tracks.safe
finish self min_sync (err _) run ts h e = cc

-- Whatever the iteration yields, every transition but a restart leaves the places guaranteed.
pub iterate-safe_trace :
    (self : Resolver) (min_sync : ℤ) (ts : List Transition)
    → iterate self ≡ ok ts
    → safe_trace self.leader_wanted min_sync (places self) ts ≡ true
unfolding iterate
iterate-safe_trace self min_sync ts h =
    let run : Run Resolver Transition = record { self = self; yielded = [] } in
    finish self min_sync (generate_transitions run).0 (generate_transitions run).1 ts
      ((generate_transitions-Safe self.leader_wanted min_sync (places self)).at run
        (start-InStep self min_sync))
      h

last_guaranteed :
    (leader_wanted : Text) (min_sync : ℤ) (start : Places) (front back : List Transition)
    (t : Transition)
    → safe_trace leader_wanted min_sync start (front ++ t ∷ back) ≡ true
    → is_restart t.transition_type ≡ false
    → is_guaranteed leader_wanted (publish_all min_sync start (front ++ t ∷ [])) ≡ true
unfolding safe_trace
last_guaranteed leader_wanted min_sync start front back t h r =
    rw publish_all-emit
      (ground (arith, safe_trace-append leader_wanted min_sync start front (t ∷ back)))

-- Let the iteration return, and let any of its transitions, none of them skipped, have been written
-- up to one that is no restart, with `synchronous_standby_names` raised to at least `min_sync`. If
-- the /sync key then has voters, any distinct nodes that acknowledge a commit, more than `numsync`
-- out of the wanted leader and the listed standbys, and any distinct nodes that elect a leader, more
-- than `quorum` out of the voters and the leader of the /sync key, have one in common. The initial
-- state is arbitrary.
pub iterate-overlap :
    (self : Resolver) (min_sync : ℤ) (front back : List Transition) (t : Transition)
    (acks promoters : CaseInsensitiveSet)
    → iterate self ≡ ok (front ++ t ∷ back)
    → is_restart t.transition_type ≡ false
    → nonempty (publish_all min_sync (places self) (front ++ t ∷ [])).voters ≡ true
    → IsDistinct acks
    → IsDistinct promoters
    → Includes
        (union
          (publish_all min_sync (places self) (front ++ t ∷ [])).sync
          (singleton self.leader_wanted))
        acks
    → Includes
        (union
          (publish_all min_sync (places self) (front ++ t ∷ [])).voters
          (singleton (publish_all min_sync (places self) (front ++ t ∷ [])).leader))
        promoters
    → (publish_all min_sync (places self) (front ++ t ∷ [])).numsync <ℤ len acks
    → (publish_all min_sync (places self) (front ++ t ∷ [])).quorum <ℤ len promoters
    → (x : Text) × (contains x acks ≡ true) × (contains x promoters ≡ true)
unfolding is_guaranteed
iterate-overlap self min_sync front back t acks promoters run r v da dp ha hp na np =
    let p : Places = publish_all min_sync (places self) (front ++ t ∷ []) in
    overlap p.leader p.quorum p.voters p.numsync p.sync self.leader_wanted acks promoters v
      (last_guaranteed self.leader_wanted min_sync (places self) front back t
        (iterate-safe_trace self min_sync (front ++ t ∷ back) run) r)
      da dp ha hp na np
