-- ===== src/Ha/OneLeader.antt =====
-- Two nodes that were granted the key take themselves for the leader at once only for as long as an
-- answer of the store takes.
use mathlib.Core.List.{Memᴰ}
use area.Common.{
  ℕ, ◌+◌, ◌≤◌, ◌<◌, ◌≡◌, refl, ap, ◌⊎◌, inl, inr, arith, Bool, true, false, not, List, [], ◌∷◌,
  Text, if◌then◌else◌,
}
use area.Ha.Lease.{
  Lease, no_lease, Answer, granted, refused, dcs_error, other_exception, is_leader, has_lock,
  set_is_leader, load_cluster_from_dcs, acquire_lock, update_lock, Event, loaded, acquired, updated,
  deleted, demoted, failsafe, bootstrapped, shut_down, continue_in_failsafe_mode, finish_bootstrap,
  delete_at_shutdown, after, after_all,
}

-- The store granted the key at one time, and its answer came at another.
pub record Grant : Type 0 where
  pub granted_at : ℕ
  pub answered_at : ℕ

-- What a node has for its leadership: the grants of a key that it has not deleted, and the times at
-- which it took itself for the leader without one, since the store last answered. A grant becomes such
-- a time when the key is deleted at the shutdown.
pub record Holdings : Type 0 where
  pub grants : List Grant
  pub claims : List ℕ

abbrev nothing : Holdings
nothing = record { grants = []; claims = [] }

abbrev granted_by : ℕ → Answer → Holdings → Holdings
granted_by now (granted at) h = record {
  grants = record { granted_at = at; answered_at = now } ∷ h.grants;
  claims = [];
}
granted_by now dcs_error h = h
granted_by now _ h = record h { claims = [] }

abbrev claimed : ℕ → Holdings → Holdings
claimed now h = record h { claims = now ∷ h.claims }

abbrev pub released : List Grant → List ℕ → List ℕ
released [] claims = claims
released (g ∷ grants) claims = g.answered_at ∷ released grants claims

abbrev holdings_after : Event → Holdings → Holdings
holdings_after (loaded now leader_name) h = h
holdings_after (acquired now answer) h = granted_by now answer h
holdings_after (updated now answer) h = granted_by now answer h
holdings_after (deleted now) h = nothing
holdings_after (demoted now) h = record h { claims = [] }
holdings_after (failsafe now) h = claimed now h
holdings_after (bootstrapped now) h = claimed now h
holdings_after (shut_down now) h = record { grants = []; claims = released h.grants h.claims }

abbrev all_holdings : List Event → Holdings → Holdings
all_holdings [] h = h
all_holdings (e ∷ es) h = all_holdings es (holdings_after e h)

-- The grants after the key was last deleted, and the claims without a grant after the last answer.
abbrev pub live_grants : List Event → List Grant
live_grants es = (all_holdings es nothing).grants

abbrev pub live_claims : List Event → List ℕ
live_claims es = (all_holdings es nothing).claims

-- The lease has run out, or it comes from a grant or a claim.
Backed : ℕ → Holdings → Lease → Type 0
Backed ttl h l =
    (l.leader_expiry ≡ 0)
    ⊎ (((g : Grant) × Memᴰ g h.grants × (l.leader_expiry ≡ g.answered_at + ttl))
        ⊎ ((c : ℕ) × Memᴰ c h.claims × (l.leader_expiry ≡ c + ttl)))

acquire_lock-Backed :
    (ttl now : ℕ) (answer : Answer) (h : Holdings) (l : Lease)
    → Backed ttl h l
    → Backed ttl (granted_by now answer h) (acquire_lock ttl now answer l)
unfolding acquire_lock set_is_leader Backed
acquire_lock-Backed ttl now (granted at) h l b =
    inr (inl (record { granted_at = at; answered_at = now }, Memᴰ.head refl, refl))
acquire_lock-Backed ttl now refused h l b = inl refl
acquire_lock-Backed ttl now dcs_error h l b = b
acquire_lock-Backed ttl now other_exception h l b = inl refl

update_lock-Backed :
    (ttl now : ℕ) (answer : Answer) (h : Holdings) (l : Lease)
    → Backed ttl h l
    → Backed ttl (granted_by now answer h) (update_lock ttl now answer l)
unfolding update_lock set_is_leader Backed
update_lock-Backed ttl now (granted at) h l b =
    inr (inl (record { granted_at = at; answered_at = now }, Memᴰ.head refl, refl))
update_lock-Backed ttl now refused h l b = inl refl
update_lock-Backed ttl now dcs_error h l b = b
update_lock-Backed ttl now other_exception h l b = inl refl

released-grant :
    (g : Grant) (grants : List Grant) (claims : List ℕ)
    → Memᴰ g grants
    → Memᴰ g.answered_at (released grants claims)
released-grant g [] claims m = elim m [ ]
released-grant g (k ∷ grants) claims (Memᴰ.head e) = Memᴰ.head (ap (λ (g : Grant). g.answered_at) e)
released-grant g (k ∷ grants) claims (Memᴰ.tail m) = Memᴰ.tail (released-grant g grants claims m)

released-claim :
    (c : ℕ) (grants : List Grant) (claims : List ℕ)
    → Memᴰ c claims
    → Memᴰ c (released grants claims)
released-claim c [] claims m = m
released-claim c (g ∷ grants) claims m = Memᴰ.tail (released-claim c grants claims m)

delete_at_shutdown-Backed :
    (ttl now : ℕ) (h : Holdings) (l : Lease)
    → Backed ttl h l
    → Backed ttl (holdings_after (shut_down now) h) (delete_at_shutdown l)
unfolding delete_at_shutdown Backed
delete_at_shutdown-Backed ttl now h l (inl e) = inl e
delete_at_shutdown-Backed ttl now h l (inr (inl (g, m, e))) =
    inr (inr (g.answered_at, released-grant g h.grants h.claims m, e))
delete_at_shutdown-Backed ttl now h l (inr (inr (c, m, e))) =
    inr (inr (c, released-claim c h.grants h.claims m, e))

after-Backed :
    (own : Text) (ttl : ℕ) (e : Event) (h : Holdings) (l : Lease)
    → Backed ttl h l
    → Backed ttl (holdings_after e h) (after own ttl e l)
unfolding after set_is_leader load_cluster_from_dcs continue_in_failsafe_mode finish_bootstrap
    Backed
after-Backed own ttl (loaded now leader_name) h l b = kept (not (has_lock own leader_name))
  where
    kept :
        (c : Bool)
        → Backed ttl h (if c then record l { leader_expiry = 0; promote_timestamp = 0 } else l)
    kept true = inl refl
    kept false = b
after-Backed own ttl (acquired now answer) h l b = acquire_lock-Backed ttl now answer h l b
after-Backed own ttl (updated now answer) h l b = update_lock-Backed ttl now answer h l b
after-Backed own ttl (deleted now) h l b = inl refl
after-Backed own ttl (demoted now) h l b = inl refl
after-Backed own ttl (failsafe now) h l b = inr (inr (now, Memᴰ.head refl, refl))
after-Backed own ttl (bootstrapped now) h l b = inr (inr (now, Memᴰ.head refl, refl))
after-Backed own ttl (shut_down now) h l b = delete_at_shutdown-Backed ttl now h l b

after_all-Backed :
    (own : Text) (ttl : ℕ) (es : List Event) (h : Holdings) (l : Lease)
    → Backed ttl h l
    → Backed ttl (all_holdings es h) (after_all own ttl es l)
unfolding after_all
after_all-Backed own ttl [] h l b = b
after_all-Backed own ttl (e ∷ es) h l b =
    after_all-Backed own ttl es (holdings_after e h) (after own ttl e l)
      (after-Backed own ttl e h l b)

-- A claim without a grant that is not older than the time to live.
abbrev pub HasClaim : ℕ → ℕ → List Event → Type 0
HasClaim ttl t es = (c : ℕ) × Memᴰ c (live_claims es) × (t < c + ttl)

-- The grant or the claim that lets a node take itself for the leader.
is_leader-Grant :
    (own : Text) (ttl t : ℕ) (es : List Event)
    → is_leader t (after_all own ttl es no_lease) ≡ true
    → ((g : Grant) × Memᴰ g (live_grants es) × (t < g.answered_at + ttl)) ⊎ HasClaim ttl t es
unfolding is_leader Backed
is_leader-Grant own ttl t es h = of_backed (after_all-Backed own ttl es nothing no_lease (inl refl))
  where
    of_backed :
        Backed ttl (all_holdings es nothing) (after_all own ttl es no_lease)
        → ((g : Grant) × Memᴰ g (live_grants es) × (t < g.answered_at + ttl)) ⊎ HasClaim ttl t es
    of_backed (inl e) = absurd (none_left e)
      where
        none_left : (after_all own ttl es no_lease).leader_expiry ≡ 0 → ⊥
        none_left e = ground arith
    of_backed (inr (inl (g, m, e))) = inl (g, m, ground arith)
    of_backed (inr (inr (c, m, e))) = inr (c, m, ground arith)

-- The answers came after the grants, no later than the delay after them, and are in the past.
pub record IsAnswered (delay t : ℕ) (g : Grant) : Type 0 where
  pub in_order : g.granted_at ≤ g.answered_at
  pub in_delay : g.answered_at ≤ g.granted_at + delay
  pub is_past : g.answered_at ≤ t

-- Let the store grant the key to one of two nodes only after the time to live of what it granted to
-- the other, unless that one has deleted the key since, and let each answer come within a delay. If
-- both nodes take themselves for the leader, then one of them was granted the key less than the delay
-- ago, or has, less than the time to live ago, gone on in failsafe mode, ended its bootstrap, or been
-- told of the grant of a key that it deleted at its shutdown.
pub is_leader-recent :
    (n m : Text) (ttl delay t : ℕ) (es fs : List Event)
    → ((g : Grant) → Memᴰ g (live_grants es) → IsAnswered delay t g)
    → ((g : Grant) → Memᴰ g (live_grants fs) → IsAnswered delay t g)
    → ((g k : Grant)
        → Memᴰ g (live_grants es)
        → Memᴰ k (live_grants fs)
        → (g.granted_at + ttl ≤ k.granted_at) ⊎ (k.granted_at + ttl ≤ g.granted_at))
    → is_leader t (after_all n ttl es no_lease) ≡ true
    → is_leader t (after_all m ttl fs no_lease) ≡ true
    → ((g : Grant) × (Memᴰ g (live_grants es) ⊎ Memᴰ g (live_grants fs))
        × (g.granted_at ≤ t)
        × (t < g.granted_at + delay))
      ⊎ (HasClaim ttl t es ⊎ HasClaim ttl t fs)
is_leader-recent n m ttl delay t es fs a b exclusive h k = elim (is_leader-Grant n ttl t es h) [
  | inr c ↦ inr (inl c)
  | inl (g, p, x) ↦ elim (is_leader-Grant m ttl t fs k) [
    | inr c ↦ inr (inr c)
    | inl (j, q, y) ↦ inl (recent g j p q (a g p) (b j q) x y (exclusive g j p q))
  ]
]
  where
    recent :
        (g j : Grant)
        → Memᴰ g (live_grants es)
        → Memᴰ j (live_grants fs)
        → IsAnswered delay t g
        → IsAnswered delay t j
        → t < g.answered_at + ttl
        → t < j.answered_at + ttl
        → (g.granted_at + ttl ≤ j.granted_at) ⊎ (j.granted_at + ttl ≤ g.granted_at)
        → (g : Grant) × (Memᴰ g (live_grants es) ⊎ Memᴰ g (live_grants fs))
          × (g.granted_at ≤ t)
          × (t < g.granted_at + delay)
    recent g j p q c d x y (inl e) =
        (j, inr q, omega (arith, d.in_order, d.is_past), omega (arith, c.in_delay))
    recent g j p q c d x y (inr e) =
        (g, inl p, omega (arith, c.in_order, c.is_past), omega (arith, d.in_delay))
