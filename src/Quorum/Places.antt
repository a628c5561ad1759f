-- ===== src/Quorum/Places.antt =====
-- The two places that transitions are written to: the /sync key and `synchronous_standby_names`.
-- ha.py, `_process_quorum_replication`, writes them in the order in which they are yielded, and may
-- stop after any of them.
use area.Common.{
  ℤ, pos, ◌+ℤ◌, ◌≤ℤ◌, ltb_ℤ, leb_ℤ, int_laws, ◌≡◌, refl, List, [], ◌∷◌, ◌++◌, Bool, true, ◌&&◌,
  ◌||◌, Text, arith, Bool-cases, inl, inr, if◌then◌else◌,
}
use area.Collections.{CaseInsensitiveSet, len}
use area.Quorum.Transition.{TransitionType, Transition}
use area.Quorum.Resolver.{overlap_guaranteed}
use area.Quorum.Steps.{is_restart, same_type, merge}
use area.Quorum.Overlap.{leb_ℤ→≤ℤ, ≤ℤ→leb_ℤ, all_nodes}

pub record Places : Type 0 where
  pub leader : Text
  pub quorum : ℤ
  pub voters : CaseInsensitiveSet
  pub numsync : ℤ
  pub sync : CaseInsensitiveSet

abbrev publish_as : TransitionType → Places → Text → ℤ → CaseInsensitiveSet → ℤ → Places
publish_as TransitionType.quorum p leader num names min_sync = record p {
  leader = leader;
  quorum = num;
  voters = names;
}
publish_as TransitionType.sync p leader num names min_sync = record p {
  numsync = if ltb_ℤ num min_sync then min_sync else num;
  sync = names;
}
publish_as TransitionType.restart p leader num names min_sync = p

-- One round of the loop over the transitions; `min_sync` is the least replication factor.
unfoldable pub publish : ℤ → Places → Transition → Places
publish min_sync p t = publish_as t.transition_type p t.leader t.num t.names min_sync

unfoldable pub publish_all : ℤ → Places → List Transition → Places
publish_all min_sync p [] = p
publish_all min_sync p (t ∷ ts) = publish_all min_sync (publish min_sync p t) ts

-- The places pass the resolver's check.
unfoldable pub is_guaranteed : Text → Places → Bool
is_guaranteed leader_wanted p =
    overlap_guaranteed p.leader p.quorum p.voters p.numsync p.sync leader_wanted

-- The check passes after each transition but a restart.
unfoldable pub safe_trace : Text → ℤ → Places → List Transition → Bool
safe_trace leader_wanted min_sync p [] = true
safe_trace leader_wanted min_sync p (t ∷ ts) =
    (is_restart t.transition_type || is_guaranteed leader_wanted (publish min_sync p t))
    && safe_trace leader_wanted min_sync (publish min_sync p t) ts

merge_cons :
    (t u : Transition) (ts : List Transition)
    → merge (t ∷ u ∷ ts) ≡ (
        if same_type t.transition_type u.transition_type
        then merge (u ∷ ts)
        else if is_restart t.transition_type
        then t ∷ []
        else t ∷ merge (u ∷ ts))
unfolding merge
merge_cons t u ts = refl

module _ (leader_wanted : Text) (min_sync : ℤ) where
  pub publish_all-append :
      (p : Places) (ts us : List Transition)
      → publish_all min_sync p (ts ++ us) ≡ publish_all min_sync (publish_all min_sync p ts) us
  unfolding publish_all
  publish_all-append p [] us = refl
  publish_all-append p (t ∷ ts) us = publish_all-append (publish min_sync p t) ts us

  pub safe_trace-append :
      (p : Places) (ts us : List Transition)
      → safe_trace leader_wanted min_sync p (ts ++ us) ≡ (
          safe_trace leader_wanted min_sync p ts
          && safe_trace leader_wanted min_sync (publish_all min_sync p ts) us)
  unfolding safe_trace publish_all
  safe_trace-append p [] us = refl
  safe_trace-append p (t ∷ ts) us = ground (arith, safe_trace-append (publish min_sync p t) ts us)

  pub publish_all-emit :
      (p : Places) (ts : List Transition) (t : Transition)
      → publish_all min_sync p (ts ++ t ∷ []) ≡ publish min_sync (publish_all min_sync p ts) t
  unfolding publish_all
  publish_all-emit p ts t = publish_all-append p ts (t ∷ [])

  pub safe_trace-emit :
      (p : Places) (ts : List Transition) (t : Transition)
      → safe_trace leader_wanted min_sync p ts ≡ true
      → (is_restart t.transition_type
          || is_guaranteed leader_wanted (publish min_sync (publish_all min_sync p ts) t))
        ≡ true
      → safe_trace leader_wanted min_sync p (ts ++ t ∷ []) ≡ true
  unfolding safe_trace
  safe_trace-emit p ts t h k = rw safe_trace-append (ground arith)

  -- The later of two transitions of one type overwrites the earlier.
  publish_twice :
      (p : Places) (t u : Transition)
      → same_type t.transition_type u.transition_type ≡ true
      → publish min_sync (publish min_sync p t) u ≡ publish min_sync p u
  unfolding publish same_type
  publish_twice p t u h = ground arith

  -- Without the earlier of two transitions of one type.
  safe_trace-skip :
      (p : Places) (t u : Transition) (ts : List Transition)
      → same_type t.transition_type u.transition_type ≡ true
      → safe_trace leader_wanted min_sync p (t ∷ u ∷ ts) ≡ true
      → safe_trace leader_wanted min_sync p (u ∷ ts) ≡ true
  unfolding safe_trace
  safe_trace-skip p t u ts e h = ground (arith, publish_twice p t u e)

  safe_trace-first :
      (p : Places) (t : Transition) (ts : List Transition)
      → safe_trace leader_wanted min_sync p (t ∷ ts) ≡ true
      → safe_trace leader_wanted min_sync p (t ∷ []) ≡ true
  unfolding safe_trace
  safe_trace-first p t ts h = ground arith

  safe_trace-replace :
      (p : Places) (t : Transition) (ts us : List Transition)
      → safe_trace leader_wanted min_sync p (t ∷ ts) ≡ true
      → (safe_trace leader_wanted min_sync (publish min_sync p t) ts ≡ true
          → safe_trace leader_wanted min_sync (publish min_sync p t) us ≡ true)
      → safe_trace leader_wanted min_sync p (t ∷ us) ≡ true
  unfolding safe_trace
  safe_trace-replace p t ts us h k = ground arith

  -- Merging skips states and adds none.
  pub merge-safe_trace :
      (p : Places) (ts : List Transition)
      → safe_trace leader_wanted min_sync p ts ≡ true
      → safe_trace leader_wanted min_sync p (merge ts) ≡ true
  merge-safe_trace p [] h = unfold merge in h
  merge-safe_trace p (t ∷ []) h = unfold merge in h
  merge-safe_trace p (t ∷ u ∷ ts) h =
      rw merge_cons (elim (Bool-cases (same_type t.transition_type u.transition_type)) [
        | inl e ↦ rw e (merge-safe_trace p (u ∷ ts) (safe_trace-skip p t u ts e h))
        | inr e ↦ rw e (elim (Bool-cases (is_restart t.transition_type)) [
          | inl r ↦ rw r (safe_trace-first p t (u ∷ ts) h)
          | inr r ↦ rw r (
              safe_trace-replace p t (u ∷ ts) (merge (u ∷ ts)) h
                (merge-safe_trace (publish min_sync p t) (u ∷ ts)))
        ])
      ])

size_mono :
    (nodes : CaseInsensitiveSet) (quorum n m : ℤ)
    → n ≤ℤ m
    → leb_ℤ (len nodes) (quorum +ℤ n +ℤ pos 1) ≡ true
    → leb_ℤ (len nodes) (quorum +ℤ m +ℤ pos 1) ≡ true
size_mono nodes quorum n m le h =
    ≤ℤ→leb_ℤ (len nodes) (quorum +ℤ m +ℤ pos 1)
      (omega (int_laws, leb_ℤ→≤ℤ (len nodes) (quorum +ℤ n +ℤ pos 1) h))

-- A larger `numsync` keeps the guarantee.
pub overlap_guaranteed_mono :
    (leader : Text) (quorum : ℤ) (voters : CaseInsensitiveSet) (n m : ℤ) (sync : CaseInsensitiveSet)
    (leader_wanted : Text)
    → overlap_guaranteed leader quorum voters n sync leader_wanted ≡ true
    → n ≤ℤ m
    → overlap_guaranteed leader quorum voters m sync leader_wanted ≡ true
unfolding overlap_guaranteed
overlap_guaranteed_mono leader quorum voters n m sync leader_wanted h le =
    ground (arith, size_mono (all_nodes leader voters sync leader_wanted) quorum n m le)
