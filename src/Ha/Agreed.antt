-- ===== src/Ha/Agreed.antt =====
-- A primary that goes on without the configuration store has every member's consent.
use area.Common.{
  ℤ, ◌+ℤ◌, ltb_ℤ, ◌<ℤ◌, ◌≡◌, refl, sym, subst, eq_of_eq_text, arith, Bool-cases, inl, inr, Bool,
  true, false, not, and-eq-true, some, List, [], ◌∷◌, map, every, some_of, is_empty, Text, eq_text,
  if◌then◌else◌,
}
use area.Ha.Failsafe.{
  Announcement, Failsafe, update, is_active, leader, Peer, update_failsafe, post_failsafe, Delivery,
  lost, unanswered, answered, call_failsafe_member, Peers, call, others, check_failsafe_topology,
}

-- At a time when it reads the request, the member does not run as a primary, and from then on until the
-- ttl has passed it takes the announced node for the leader.
abbrev pub HasAgreed : ℤ → Announcement → (Text → Delivery) → Peers → Text → Type 0
HasAgreed ttl msg delivery peers name =
    (now : ℤ) × (delivery name ≡ Delivery.answered now)
    × ((peers name).is_leading ≡ false)
    × ((later : ℤ)
        → later <ℤ now +ℤ ttl
        → leader ttl later (call msg delivery peers name).1.failsafe ≡ some msg.name)

post-update :
    (now : ℤ) (msg : Announcement) (p : Peer)
    → (post_failsafe now msg p).0 ≡ true
    → (p.is_leading ≡ false) × ((post_failsafe now msg p).1.failsafe ≡ update now msg)
unfolding post_failsafe update_failsafe
post-update now msg p h = by_case p.failsafe_mode p.is_leading refl h
  where
    told : Bool → Bool → Bool × Peer
    told mode leading =
        if mode
        then (if leading then (false, p) else (true, record p { failsafe = update now msg }))
        else (false, p)

    by_case :
        (mode leading : Bool)
        → p.is_leading ≡ leading
        → (told mode leading).0 ≡ true
        → (p.is_leading ≡ false) × ((told mode leading).1.failsafe ≡ update now msg)
    by_case true true e k = cc
    by_case true false e k = (e, refl)
    by_case false leading e k = cc

<ℤ→ltb_ℤ : (a b : ℤ) → a <ℤ b → ltb_ℤ a b ≡ true
<ℤ→ltb_ℤ a b h = ground arith

leader-update :
    (ttl now later : ℤ) (msg : Announcement)
    → later <ℤ now +ℤ ttl
    → leader ttl later (update now msg) ≡ some msg.name
unfolding leader is_active update
leader-update ttl now later msg l = rw (<ℤ→ltb_ℤ later (now +ℤ ttl) l) refl

call-HasAgreed :
    (ttl : ℤ) (msg : Announcement) (delivery : Text → Delivery) (peers : Peers) (name : Text)
    → (call msg delivery peers name).0.accepted ≡ true
    → HasAgreed ttl msg delivery peers name
unfolding call
call-HasAgreed ttl msg delivery peers name h = go (delivery name) refl h
  where
    go :
        (d : Delivery)
        → delivery name ≡ d
        → (call_failsafe_member msg d name (peers name)).0.accepted ≡ true
        → (now : ℤ) × (delivery name ≡ Delivery.answered now)
          × ((peers name).is_leading ≡ false)
          × ((later : ℤ)
              → later <ℤ now +ℤ ttl
              → leader ttl later
                  (call_failsafe_member msg (delivery name) name (peers name)).1.failsafe
                ≡ some msg.name)
    go lost e k = cc
    go (unanswered now) e k = cc
    go (answered now) e k =
        let (a, u) = post-update now msg (peers name) k in
        (now, e, a, λ later l. rw (e, u) (leader-update ttl now later msg l))

every-HasAgreed :
    (ttl : ℤ) (msg : Announcement) (delivery : Text → Delivery) (peers : Peers) (names : List Text)
    (name : Text)
    → every (λ r. r.accepted) (map (λ n. (call msg delivery peers n).0) names) ≡ true
    → some_of (eq_text name) names ≡ true
    → HasAgreed ttl msg delivery peers name
every-HasAgreed ttl msg delivery peers [] name h k = absurd (no k)
  where
    no : false ≡ true → ⊥
    no e = cc
every-HasAgreed ttl msg delivery peers (n ∷ names) name h k = elim (Bool-cases (eq_text name n)) [
  | inl e ↦
      subst (HasAgreed ttl msg delivery peers) (sym (eq_of_eq_text name n e))
        (call-HasAgreed ttl msg delivery peers n (and-eq-true _ _ h).0)
  | inr e ↦
      every-HasAgreed ttl msg delivery peers names name
        (and-eq-true (call msg delivery peers n).0.accepted _ h).1 (rw e at k)
]

accepted_of :
    (found : Bool) (names : List Text) (all_accept : Bool) (f g : Failsafe) (name : Text)
    → some_of (eq_text name) names ≡ true
    → (let outcome : Bool × Failsafe =
          if not found
          then (false, f)
          else if is_empty names
          then (true, f)
          else if all_accept
          then (true, g)
          else (false, f) in
        outcome.0)
      ≡ true
    → all_accept ≡ true
accepted_of false names b f g name k h = cc
accepted_of true [] b f g name k h = cc
accepted_of true (n ∷ names) true f g name k h = refl
accepted_of true (n ∷ names) false f g name k h = cc

-- If the check succeeds, then each other member of the topology has read the request while it was not
-- running as a primary, and from then on until the ttl has passed it takes this node for the leader.
pub check_failsafe_topology-HasAgreed :
    (ttl : ℤ) (topology : List (Text × Text)) (msg : Announcement) (delivery : Text → Delivery)
    (peers : Peers) (f : Failsafe) (name : Text)
    → (check_failsafe_topology (some topology) msg delivery peers f).0 ≡ true
    → some_of (eq_text name) (others msg.name topology) ≡ true
    → HasAgreed ttl msg delivery peers name
unfolding check_failsafe_topology
check_failsafe_topology-HasAgreed ttl topology msg delivery peers f name h k =
    every-HasAgreed ttl msg delivery peers (others msg.name topology) name
      (accepted_of (some_of (λ (t : Text × Text). eq_text t.0 msg.name) topology)
        (others msg.name topology)
        (every (λ r. r.accepted)
          (map (λ n. (call msg delivery peers n).0) (others msg.name topology)))
        f _ name k h)
      k
