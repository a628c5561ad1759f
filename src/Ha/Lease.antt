-- ===== src/Ha/Lease.antt =====
-- A node's view of its own leadership: `is_leader`, `set_is_leader` and what calls them around the
-- leader key. Times are seconds of one clock; the store's answers are given.
use area.Common.{
  ℕ, suc, ◌+◌, ltb, Bool, true, false, not, Option, none, some, List, [], ◌∷◌, Text, eq_text,
  if◌then◌else◌,
}

-- `_leader_expiry` and `_promote_timestamp`, and how often the watchdog was reset.
pub record Lease : Type 0 where
  pub leader_expiry : ℕ
  pub promote_timestamp : ℕ
  pub keepalives : ℕ

abbrev pub no_lease : Lease
no_lease = record { leader_expiry = 0; promote_timestamp = 0; keepalives = 0 }

-- How the store answers, with the time at which it granted the key.
pub data Answer : Type 0 where
  granted : ℕ → Answer
  refused dcs_error other_exception : Answer

-- `is_leader`
unfoldable pub is_leader : ℕ → Lease → Bool
is_leader now l = ltb now l.leader_expiry

-- `set_is_leader`
unfoldable pub set_is_leader : ℕ → ℕ → Bool → Lease → Lease
set_is_leader ttl now value l =
    if value
    then record l { leader_expiry = now + ttl }
    else record l { leader_expiry = 0; promote_timestamp = 0 }

-- `has_lock`, of the leader's name in the view.
unfoldable pub has_lock : Text → Option Text → Bool
has_lock own none = false
has_lock own (some lock_owner) = eq_text lock_owner own

-- The last lines of `load_cluster_from_dcs`.
unfoldable pub load_cluster_from_dcs : Text → ℕ → ℕ → Option Text → Lease → Lease
unfolding has_lock set_is_leader
load_cluster_from_dcs own ttl now leader_name l =
    if not (has_lock own leader_name) then set_is_leader ttl now false l else l

-- `acquire_lock`; a DCSError is raised again before anything is set.
unfoldable pub acquire_lock : ℕ → ℕ → Answer → Lease → Lease
unfolding set_is_leader
acquire_lock ttl now (granted at) l = set_is_leader ttl now true l
acquire_lock ttl now refused l = set_is_leader ttl now false l
acquire_lock ttl now dcs_error l = l
acquire_lock ttl now other_exception l = set_is_leader ttl now false l

abbrev pub keepalive_lease : Lease → Lease
keepalive_lease l = record l { keepalives = suc l.keepalives }

-- `update_lock`
unfoldable pub update_lock : ℕ → ℕ → Answer → Lease → Lease
unfolding set_is_leader
update_lock ttl now (granted at) l = keepalive_lease (set_is_leader ttl now true l)
update_lock ttl now refused l = set_is_leader ttl now false l
update_lock ttl now dcs_error l = l
update_lock ttl now other_exception l = set_is_leader ttl now false l

-- Where `set_is_leader(True)` follows no answer of the store: `_handle_dcs_error` in failsafe mode, if
-- all members agree, and `post_bootstrap`, which ignores what `take_leader` returns.
unfoldable pub continue_in_failsafe_mode : ℕ → ℕ → Lease → Lease
unfolding set_is_leader
continue_in_failsafe_mode ttl now l = keepalive_lease (set_is_leader ttl now true l)

unfoldable pub finish_bootstrap : ℕ → ℕ → Lease → Lease
unfolding set_is_leader
finish_bootstrap ttl now l = set_is_leader ttl now true l

-- `shutdown` deletes the key and leaves `_leader_expiry` as it is.
unfoldable pub delete_at_shutdown : Lease → Lease
delete_at_shutdown l = l

-- What a node does about the key, with the time at which it is done.
pub data Event : Type 0 where
  loaded : ℕ → Option Text → Event
  acquired : ℕ → Answer → Event
  updated : ℕ → Answer → Event
  -- `_delete_leader`
  deleted : ℕ → Event
  -- `demote` in the modes that give the leadership up
  demoted : ℕ → Event
  failsafe bootstrapped shut_down : ℕ → Event

unfoldable pub after : Text → ℕ → Event → Lease → Lease
unfolding load_cluster_from_dcs acquire_lock update_lock set_is_leader continue_in_failsafe_mode
    finish_bootstrap delete_at_shutdown
after own ttl (loaded now leader_name) l = load_cluster_from_dcs own ttl now leader_name l
after own ttl (acquired now answer) l = acquire_lock ttl now answer l
after own ttl (updated now answer) l = update_lock ttl now answer l
after own ttl (deleted now) l = set_is_leader ttl now false l
after own ttl (demoted now) l = set_is_leader ttl now false l
after own ttl (failsafe now) l = continue_in_failsafe_mode ttl now l
after own ttl (bootstrapped now) l = finish_bootstrap ttl now l
after own ttl (shut_down now) l = delete_at_shutdown l

-- The events in their order.
unfoldable pub after_all : Text → ℕ → List Event → Lease → Lease
unfolding after
after_all own ttl [] l = l
after_all own ttl (e ∷ es) l = after_all own ttl es (after own ttl e l)
