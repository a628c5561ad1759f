-- ===== src/Ha/LeaseTests.antt =====
-- A leader whose answer was late and its successor.
use mathlib.Core.List.{Memᴰ}
use area.Common.{
  ◌+◌, ◌≤◌, ◌<◌, ◌≡◌, refl, ◌⊎◌, inl, subst, sym, arith, true, false, some, List, [], ◌∷◌, codes,
  eq_text,
}
use area.Ha.Lease.{
  no_lease, granted, dcs_error, is_leader, Event, loaded, acquired, updated, after, after_all,
  failsafe, shut_down, continue_in_failsafe_mode, delete_at_shutdown, has_lock, set_is_leader,
  load_cluster_from_dcs, acquire_lock, update_lock,
}
use area.Ha.OneLeader.{Grant, IsAnswered, live_grants, HasClaim, is_leader-recent}

-- The node a is granted the key at 0 and hears of it at 2; then the store is not there.
abbrev of_a : List Event
of_a = acquired 2 (granted 0) ∷ loaded 3 (some (codes "a")) ∷ updated 12 dcs_error ∷ []

-- The time to live of 30 has passed.
abbrev of_b : List Event
of_b = loaded 20 (some (codes "a")) ∷ acquired 31 (granted 30) ∷ []

abbrev first : Grant
first = record { granted_at = 0; answered_at = 2 }

abbrev second : Grant
second = record { granted_at = 30; answered_at = 31 }

first-IsAnswered : (g : Grant) → Memᴰ g (live_grants of_a) → IsAnswered 5 31 g
first-IsAnswered g (Memᴰ.head e) = subst (IsAnswered 5 31) (sym e) (omega arith)
first-IsAnswered g (Memᴰ.tail k) = elim k [ ]

second-IsAnswered : (g : Grant) → Memᴰ g (live_grants of_b) → IsAnswered 5 31 g
second-IsAnswered g (Memᴰ.head e) = subst (IsAnswered 5 31) (sym e) (omega arith)
second-IsAnswered g (Memᴰ.tail k) = elim k [ ]

apart :
    (g k : Grant)
    → Memᴰ g (live_grants of_a)
    → Memᴰ k (live_grants of_b)
    → (g.granted_at + 30 ≤ k.granted_at) ⊎ (k.granted_at + 30 ≤ g.granted_at)
apart g k (Memᴰ.head p) (Memᴰ.head q) = inl (
    subst (λ g. g.granted_at + 30 ≤ k.granted_at) (sym p)
      (subst (λ k. 30 ≤ k.granted_at) (sym q) (omega arith)))
apart g k (Memᴰ.tail p) q = elim p [ ]
apart g k p (Memᴰ.tail q) = elim q [ ]

is_leader-recent_example :
    ((g : Grant) × (Memᴰ g (live_grants of_a) ⊎ Memᴰ g (live_grants of_b))
      × (g.granted_at ≤ 31)
      × (31 < g.granted_at + 5))
    ⊎ (HasClaim 30 31 of_a ⊎ HasClaim 30 31 of_b)
unfolding is_leader after_all after has_lock set_is_leader load_cluster_from_dcs acquire_lock
    update_lock eq_text
is_leader-recent_example =
    is_leader-recent (codes "a") (codes "b") 30 5 31 of_a of_b first-IsAnswered second-IsAnswered
      apart refl refl

-- The first leader has no lease any more when its answer's time to live has passed.
run_out : is_leader 32 (after_all (codes "a") 30 of_a no_lease) ≡ false
unfolding is_leader after_all after has_lock set_is_leader load_cluster_from_dcs acquire_lock
    update_lock eq_text
run_out = refl

-- A leader that sees another name in the view gives its lease up.
given_up :
    is_leader 4 (
      after_all (codes "a") 30 (acquired 2 (granted 0) ∷ loaded 3 (some (codes "b")) ∷ []) no_lease)
    ≡ false
unfolding is_leader after_all after has_lock set_is_leader load_cluster_from_dcs acquire_lock
    update_lock eq_text
given_up = refl

-- In failsafe mode a node is the leader without a grant, and after its shutdown without the key.
without_key :
    (is_leader 40 (after_all (codes "a") 30 (failsafe 20 ∷ []) no_lease) ≡ true)
    × (is_leader 20 (after_all (codes "a") 30 (acquired 2 (granted 0) ∷ shut_down 10 ∷ []) no_lease)
        ≡ true)
unfolding is_leader after_all after set_is_leader acquire_lock continue_in_failsafe_mode
    delete_at_shutdown
without_key = (refl, refl)
