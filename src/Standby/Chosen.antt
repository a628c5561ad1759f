-- ===== src/Standby/Chosen.antt =====
-- What `current_state` promises of the confirmed standbys.
use area.Common.{
  ℕ, ℤ, pos, ltb_ℤ, leb_ℤ, ◌≡◌, refl, subst, Bool, true, false, not, ◌&&◌, ◌||◌, and-eq-true,
  Option, none, some, List, [], ◌∷◌, Text, codes, eq_text, if◌then◌else◌,
}
use area.Collections.{CaseInsensitiveSet, contains, add, len}
use area.Collections.Within.{IsWithin}
use area.Dictionary.{CaseInsensitiveDict, get_item}
use area.Sync.Handler.{Current}
use area.Cluster.View.{Cluster}
use area.Standby.Replicas.{Postgresql, Replica, is_some, replica_list, max_lsn}
use area.Standby.State.{
  Handler, Limits, handle_change, process_replica_readiness, is_near, choose_one, choose,
  promotable_first, current_state,
}
use area.Standby.Listed.{IsListed, listed-get_item, add-IsWithin, IsWithin-add, contains-add_self}
use area.Standby.Handled.{IsHandled, handle_change-IsHandled, process-IsHandled}

module _ (limits : Limits) (node_count max_position : ℤ) (ready : CaseInsensitiveDict ℤ)
    (names : CaseInsensitiveSet) (listed : IsListed ready names) where
  -- The confirmed ones are active and among the names.
  abbrev IsGood : CaseInsensitiveSet × CaseInsensitiveSet → Type 0
  IsGood (active, confirmed) = IsWithin confirmed active × IsWithin confirmed names

  IsGood-if :
      (b : Bool) (v : Text) (active confirmed : CaseInsensitiveSet)
      → IsGood (active, confirmed)
      → (b ≡ true → contains v names ≡ true)
      → IsGood (add active v, if b then add confirmed v else confirmed)
  IsGood-if true v active confirmed (h, k) f = (
    add-IsWithin confirmed (add active v) v (IsWithin-add confirmed active v h)
        (contains-add_self active v),
    add-IsWithin confirmed names v k (f refl),
  )
  IsGood-if false v active confirmed (h, k) f = (IsWithin-add confirmed active v h, k)

  choose_one-IsGood :
      (r : Replica) (active confirmed : CaseInsensitiveSet)
      → IsGood (active, confirmed)
      → IsGood (choose_one limits node_count max_position ready r active confirmed).0
  unfolding choose_one
  choose_one-IsGood r active confirmed h =
      by_case (not (is_near limits node_count max_position ready r)) limits.is_quorum_commit_mode
        (not r.nofailover || ltb_ℤ (len active) node_count)
    where
      v : Text
      v = r.application_name

      is_ready : Bool
      is_ready = is_some (get_item ready v)

      by_case :
          (far quorum wanted : Bool)
          → IsGood (
              let outcome : (CaseInsensitiveSet × CaseInsensitiveSet) × Bool =
                if far
                then ((active, confirmed), false)
                else if quorum
                then if wanted
                  then ((add active v, if is_ready then add confirmed v else confirmed), false)
                  else ((active, confirmed), false)
                else (
                  (
                    add active v,
                    if eq_text r.sync_state (codes "sync") && is_ready
                        then add confirmed v
                        else confirmed,
                  ),
                  leb_ℤ node_count (len (add active v)),
                ) in
              outcome.0)
      by_case true quorum wanted = h
      by_case false true true =
          IsGood-if is_ready v active confirmed h (listed-get_item ready names v listed)
      by_case false true false = h
      by_case false false wanted =
          IsGood-if (eq_text r.sync_state (codes "sync") && is_ready) v active confirmed h
            (λ e. listed-get_item ready names v listed (and-eq-true _ _ e).1)

  choose-IsGood :
      (rs : List Replica) (active confirmed : CaseInsensitiveSet)
      → IsGood (active, confirmed)
      → IsGood (choose limits node_count max_position ready rs active confirmed)
  unfolding choose
  choose-IsGood [] active confirmed h = h
  choose-IsGood (r ∷ rs) active confirmed h =
      let c = choose_one limits node_count max_position ready r active confirmed in
      let g = choose_one-IsGood r active confirmed h in
      if_good c.1 c.0 (choose limits node_count max_position ready rs c.0.0 c.0.1) g
        (choose-IsGood rs c.0.0 c.0.1 g)
    where
      if_good :
          (b : Bool) (x y : CaseInsensitiveSet × CaseInsensitiveSet)
          → IsGood x
          → IsGood y
          → IsGood (if b then x else y)
      if_good true x y g k = g
      if_good false x y g k = k

module _ {Version : Type 0} (frames : ℕ) (limits : Limits) (pg pg' : Postgresql)
    (cluster : Cluster Version) (h : Handler) where
  -- What a result promises, if there is one.
  abbrev Promised : Option (Current × Handler) → Type 0
  Promised none = Unit
  Promised (some (c, h')) =
      IsWithin c.sync_confirmed c.active
      × IsWithin c.sync_confirmed h'.ssn_data.members
      × IsHandled h'

  current_state-Promised : IsHandled h → Promised (current_state frames limits pg pg' cluster h)
  unfolding current_state
  current_state-Promised k = go (replica_list frames pg' cluster.members)
    where
      changed : Handler
      changed = handle_change pg h

      go :
          (list : Option (List Replica))
          → Promised (elim list as (λ _. Option (Current × Handler)) [
            | none ↦ none
            | some rs ↦
                let h = process_replica_readiness limits pg' cluster.sync changed rs in
                let node_count =
                  if pg'.supports_multiple_sync then limits.synchronous_node_count else pos 1 in
                let (active, confirmed) =
                  choose limits node_count
                    (max_lsn pg' rs)
                    h.ready_replicas
                    (promotable_first rs)
                    []
                    [] in
                some (
                  record {
                    numsync = h.ssn_data.num;
                    sync = if h.ssn_data.has_star then [] else h.ssn_data.members;
                    sync_confirmed = confirmed;
                    active = active;
                  },
                  h,
                )
          ])
      go none = tt
      go (some rs) =
          let (g, e) =
            process-IsHandled limits pg' cluster.sync changed rs (handle_change-IsHandled pg h k) in
          let ready = process_replica_readiness limits pg' cluster.sync changed rs in
          let (a, b) =
            choose-IsGood limits
              (if pg'.supports_multiple_sync then limits.synchronous_node_count else pos 1)
              (max_lsn pg' rs) ready.ready_replicas ready.ssn_data.members g (promotable_first rs)
              [] [] ((λ x f. f), λ x f. absurd (none_in x f)) in
          (a, b, g)
        where
          none_in : (x : Text) → contains x [] ≡ true → ⊥
          none_in x f = cc

  -- If only standbys that are waited for are known as ready, and the state can be told, then each
  -- confirmed standby is a candidate and among the names that are waited for, and again only such
  -- standbys are known as ready.
  pub current_state-confirmed :
      (c : Current) (h' : Handler)
      → IsHandled h
      → current_state frames limits pg pg' cluster h ≡ some (c, h')
      → IsWithin c.sync_confirmed c.active
        × IsWithin c.sync_confirmed h'.ssn_data.members
        × IsHandled h'
  current_state-confirmed c h' k e = subst Promised e (current_state-Promised k)
