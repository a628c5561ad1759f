-- ===== src/Standby/Handled.antt =====
-- Only standbys that are waited for become ready.
use area.Common.{
  ◌≡◌, refl, ◌∙◌, Bool, true, false, not, ◌&&◌, List, [], ◌∷◌, keep, eq_text, if◌then◌else◌,
}
use area.Collections.{contains}
use area.Dictionary.{get_item, set_item}
use area.Sync.State.{SyncState}
use area.Standby.Replicas.{Postgresql, Replica, is_some}
use area.Standby.State.{
  Handler, Limits, handle_change, parsed, is_caught_up, ready_one, process_replica_readiness,
}
use area.Standby.Listed.{IsListed, IsListed-keep, IsListed-set_item}

-- What is known of a handler: only waited-for standbys are ready.
abbrev pub IsHandled : Handler → Type 0
IsHandled h = IsListed h.ready_replicas h.ssn_data.members

pub handle_change-IsHandled :
    (pg : Postgresql) (h : Handler) → IsHandled h → IsHandled (handle_change pg h)
unfolding handle_change
handle_change-IsHandled pg h k =
    by_case (eq_text pg.synchronous_standby_names h.synchronous_standby_names)
  where
    changed : Handler
    changed = record {
      synchronous_standby_names = pg.synchronous_standby_names;
      ssn_data = parsed pg.synchronous_standby_names;
      primary_flush_lsn = pg.last_operation;
      ready_replicas =
          keep (λ e. contains e.key (parsed pg.synchronous_standby_names).members) h.ready_replicas;
    }

    by_case : (b : Bool) → IsHandled (if b then h else changed)
    by_case true = k
    by_case false = IsListed-keep h.ready_replicas (parsed pg.synchronous_standby_names).members

module _ {Version : Type 0} (limits : Limits) (pg : Postgresql) (sync : SyncState Version) where
  ready_one-IsHandled :
      (h : Handler) (r : Replica)
      → IsHandled h
      → IsHandled (ready_one limits pg sync h r)
        × ((ready_one limits pg sync h r).ssn_data ≡ h.ssn_data)
  unfolding ready_one
  ready_one-IsHandled h r k =
      by_case (not (is_some (get_item h.ready_replicas r.application_name)))
        (contains r.application_name h.ssn_data.members) (is_caught_up limits pg sync h r) refl
    where
      more : Handler
      more = record h { ready_replicas = set_item h.ready_replicas r.application_name r.pid }

      by_case :
          (a b c : Bool)
          → contains r.application_name h.ssn_data.members ≡ b
          → IsHandled (if a && b && c then more else h)
            × ((if a && b && c then more else h).ssn_data ≡ h.ssn_data)
      by_case true true true e =
          (IsListed-set_item h.ready_replicas h.ssn_data.members r.application_name r.pid k e, refl)
      by_case true true false e = (k, refl)
      by_case true false c e = (k, refl)
      by_case false b c e = (k, refl)

  pub process-IsHandled :
      (h : Handler) (rs : List Replica)
      → IsHandled h
      → IsHandled (process_replica_readiness limits pg sync h rs)
        × ((process_replica_readiness limits pg sync h rs).ssn_data ≡ h.ssn_data)
  unfolding process_replica_readiness
  process-IsHandled h [] k = (k, refl)
  process-IsHandled h (r ∷ rs) k =
      let (g, e) = ready_one-IsHandled h r k in
      let (g', e') = process-IsHandled (ready_one limits pg sync h r) rs g in (g', e' ∙ e)
