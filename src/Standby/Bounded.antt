-- ===== src/Standby/Bounded.antt =====
-- How many standbys `current_state` chooses.
use area.Common.{
  ℕ, suc, ◌≤◌, ℤ, pos, ◌≤ℤ◌, ◌<ℤ◌, leb_ℤ, max_ℤ, int_laws, ◌≡◌, refl, subst, arith, Bool, true,
  false, not, ◌&&◌, Option, none, some, List, [], ◌∷◌, length, Text, codes, eq_text, if◌then◌else◌,
}
use area.Collections.{CaseInsensitiveSet, add, len}
use area.Dictionary.{CaseInsensitiveDict, get_item}
use area.Sync.Handler.{Current}
use area.Cluster.View.{Cluster}
use area.Standby.Replicas.{Postgresql, Replica, is_some, replica_list, max_lsn}
use area.Standby.State.{
  Handler, Limits, handle_change, process_replica_readiness, is_near, choose_one, choose,
  promotable_first, current_state,
}
use area.Standby.Listed.{length-add}

-- The number of nodes that is asked for.
abbrev pub node_count : Limits → Postgresql → ℤ
node_count limits pg = if pg.supports_multiple_sync then limits.synchronous_node_count else pos 1

-- At least one standby is taken, whatever the number is.
abbrev pub most : ℤ → ℤ
most count = max_ℤ count (pos 1)

module _ (limits : Limits) (count max_position : ℤ) (ready : CaseInsensitiveDict ℤ)
    (q : limits.is_quorum_commit_mode ≡ false) where
  abbrev Pair : Type 0
  Pair = CaseInsensitiveSet × CaseInsensitiveSet

  -- Within the bound where the loop ends, below it where it goes on.
  abbrev IsBounded : Pair × Bool → Type 0
  IsBounded ((active, confirmed), true) = len active ≤ℤ most count
  IsBounded ((active, confirmed), false) = len active <ℤ most count

  grown : (n m : ℕ) → pos n <ℤ most count → m ≤ suc n → pos m ≤ℤ most count
  grown n m h l = omega (int_laws, h)

  below : (m : ℕ) → leb_ℤ count (pos m) ≡ false → pos m <ℤ most count
  below m e = ground arith

  one-IsBounded :
      (r : Replica) (active confirmed : CaseInsensitiveSet)
      → len active <ℤ most count
      → IsBounded (choose_one limits count max_position ready r active confirmed)
  unfolding choose_one
  one-IsBounded r active confirmed h =
      rw q (by_case (not (is_near limits count max_position ready r)))
    where
      v : Text
      v = r.application_name

      ended :
          (b : Bool) (c : CaseInsensitiveSet)
          → leb_ℤ count (len (add active v)) ≡ b
          → IsBounded ((add active v, c), b)
      ended true c e = grown (length active) (length (add active v)) h (length-add active v)
      ended false c e = below (length (add active v)) e

      by_case :
          (far : Bool)
          → IsBounded (
              if far then ((active, confirmed), false) else (
                (
                  add active v,
                  if eq_text r.sync_state (codes "sync") && is_some (get_item ready v)
                      then add confirmed v
                      else confirmed,
                ),
                leb_ℤ count (len (add active v)),
              ))
      by_case true = h
      by_case false =
          ended (leb_ℤ count (len (add active v)))
            (if eq_text r.sync_state (codes "sync") && is_some (get_item ready v)
              then add confirmed v
              else confirmed)
            refl

  choose-bounded :
      (rs : List Replica) (active confirmed : CaseInsensitiveSet)
      → len active <ℤ most count
      → len (choose limits count max_position ready rs active confirmed).0 ≤ℤ most count
  unfolding choose
  choose-bounded [] active confirmed h = omega (int_laws, h)
  choose-bounded (r ∷ rs) active confirmed h =
      next (choose_one limits count max_position ready r active confirmed)
        (one-IsBounded r active confirmed h) (λ a b k. choose-bounded rs a b k)
    where
      next :
          (c : Pair × Bool)
          → IsBounded c
          → ((a b : CaseInsensitiveSet)
              → len a <ℤ most count
              → len (choose limits count max_position ready rs a b).0 ≤ℤ most count)
          → len (if c.1 then c.0 else choose limits count max_position ready rs c.0.0 c.0.1).0
            ≤ℤ most count
      next ((a, b), true) k ih = k
      next ((a, b), false) k ih = ih a b k

module _ {Version : Type 0} (frames : ℕ) (limits : Limits) (pg pg' : Postgresql)
    (cluster : Cluster Version) (h : Handler) where
  abbrev Promised : Option (Current × Handler) → Type 0
  Promised none = Unit
  Promised (some (c, h')) = len c.active ≤ℤ most (node_count limits pg')

  current_state-Promised :
      limits.is_quorum_commit_mode ≡ false → Promised (current_state frames limits pg pg' cluster h)
  unfolding current_state
  current_state-Promised q = go (replica_list frames pg' cluster.members)
    where
      go :
          (list : Option (List Replica))
          → Promised (elim list as (λ _. Option (Current × Handler)) [
            | none ↦ none
            | some rs ↦
                let h = process_replica_readiness limits pg' cluster.sync (handle_change pg h) rs in
                let (active, confirmed) =
                  choose limits
                    (node_count limits pg')
                    (max_lsn pg' rs)
                    h.ready_replicas
                    (promotable_first rs)
                    []
                    [] in
                some (
                  record {
                    numsync = h.ssn_data.num;
                    sync = if h.ssn_data.has_star then [] else h.ssn_data.members;
                    sync_confirmed = confirmed;
                    active = active;
                  },
                  h,
                )
          ])
      go none = tt
      go (some rs) =
          choose-bounded limits (node_count limits pg') (max_lsn pg' rs)
            (process_replica_readiness limits pg' cluster.sync (handle_change pg h)
              rs).ready_replicas
            q (promotable_first rs) [] [] (positive (node_count limits pg'))
        where
          positive : (n : ℤ) → pos 0 <ℤ most n
          positive n = ground arith

  -- Without quorum commit, where the state can be told, no more standbys are candidates than the
  -- configuration asks for, or one where it asks for none; one if PostgreSQL takes only one name.
  pub current_state-bounded :
      (c : Current) (h' : Handler)
      → limits.is_quorum_commit_mode ≡ false
      → current_state frames limits pg pg' cluster h ≡ some (c, h')
      → len c.active ≤ℤ most (node_count limits pg')
  current_state-bounded c h' q e = subst Promised e (current_state-Promised q)
