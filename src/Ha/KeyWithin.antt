-- ===== src/Ha/KeyWithin.antt =====
-- While standbys are replaced, the /sync key lists only nodes that PostgreSQL waits for.
use area.Common.{
  eqb_ℤ, pos, ◌≡◌, refl, sym, ◌⊎◌, inl, inr, subst, Bool-cases, Bool, true, false, not, ◌&&◌,
  and-eq-true, Option, none, some, [], is_empty, Text, if◌then◌else◌,
}
use area.Collections.{CaseInsensitiveSet, contains, of_values, eq_set, inter, len}
use area.Sync.State.{SyncState, SyncValue, is_empty_state, voters}
use area.Sync.Handler.{Current, SyncHandler}
use area.Ha.Node.{Ha}
use area.Ha.Race.{is_name}
use area.Ha.Multisync.{
  Replication, write_sync_state, inspect, assign, maybe_enable_synchronous_mode, assign_status,
  star, assign_names, reduce, compare, correct_names, correct_leader, process_multisync_replication,
}
use area.Collections.Within.{
  IsWithin, empty-IsWithin, eq_set-IsWithin, inter-IsDistinct, inter-IsWithin_right,
}
use area.Ha.KeySteps.{
  IsKept, Wrote, write-Wrote, Wrote-IsKept, if_IsKept, then-IsKept, inspect-IsKept, told-IsKept,
  assign-IsKept,
}

module _ {Version Store World : Type 0} (handler : SyncHandler World)
    (set_sync_state_value : SyncValue → Option Version → Store → Option Version × Store)
    (ha : Ha Version) where
  assign_status-IsKept :
      (allow common : CaseInsensitiveSet) (sync : SyncState Version) (r : Replication Store World)
      → IsKept handler set_sync_state_value r
      → IsWithin allow (handler.names r.world)
      → IsKept handler set_sync_state_value
          (assign_status handler set_sync_state_value ha allow common sync r)
  unfolding assign_status
  assign_status-IsKept allow common sync r h k =
      if_IsKept handler set_sync_state_value (not (is_empty allow) && not (eq_set allow common)) _ r
        (Wrote-IsKept handler set_sync_state_value allow r _
          (write-Wrote handler set_sync_state_value ha.node.name allow (pos 0) sync.version r h k))
        h

  assign_names-IsKept :
      (picked allow common : CaseInsensitiveSet) (sync : SyncState Version)
      (r : Replication Store World)
      → IsKept handler set_sync_state_value r
      → IsWithin r.standbys allow
      → IsWithin allow picked
      → handler.can_set picked ≡ true
      → IsKept handler set_sync_state_value
          (assign_names handler set_sync_state_value ha picked allow common sync r)
  unfolding assign_names
  assign_names-IsKept picked allow common sync r h k l s =
      let strict = ha.settings.is_synchronous_mode_strict && is_empty picked in
      go (if strict then star handler set_sync_state_value ha else picked) (in_force strict refl)
    where
      in_force :
          (b : Bool)
          → (ha.settings.is_synchronous_mode_strict && is_empty picked) ≡ b
          → IsWithin allow (
              handler.names (
                handler.set_synchronous_standby_names
                  (if b then star handler set_sync_state_value ha else picked)
                  none
                  r.world))
      in_force true e = λ x f. empty-IsWithin picked _ (and-eq-true _ _ e).1 x (l x f)
      in_force false e = λ x f. handler.set-names picked r.world s x (l x f)

      go :
          (picked : CaseInsensitiveSet)
          → IsWithin allow
              (handler.names (handler.set_synchronous_standby_names picked none r.world))
          → IsKept handler set_sync_state_value (
              let r = assign handler set_sync_state_value picked none r in
              if not (is_empty picked)
                && not (eq_set picked (star handler set_sync_state_value ha))
                && not (eq_set allow picked)
              then (let (current, r) = inspect handler set_sync_state_value r in
                  elim current as (λ _. Replication Store World) [
                    | none ↦ r
                    | some current ↦
                        assign_status handler set_sync_state_value ha current.sync_confirmed common
                          sync r
                  ])
              else assign_status handler set_sync_state_value ha allow common sync r)
      go picked l =
          let r' = assign handler set_sync_state_value picked none r in
          let i = inspect handler set_sync_state_value r' in
          let a = assign-IsKept handler set_sync_state_value picked r h (λ x e. l x (k x e)) in
          if_IsKept handler set_sync_state_value
            (not (is_empty picked)
              && not (eq_set picked (star handler set_sync_state_value ha))
              && not (eq_set allow picked))
            (elim i.0 [
              | none ↦ i.1
              | some c ↦
                  assign_status handler set_sync_state_value ha c.sync_confirmed common sync i.1
            ])
            (assign_status handler set_sync_state_value ha allow common sync r')
            (told-IsKept handler set_sync_state_value i.0 i.1
              (λ c. assign_status handler set_sync_state_value ha c.sync_confirmed common sync i.1)
              (inspect-IsKept handler set_sync_state_value r' a)
              (λ c e.
                assign_status-IsKept c.sync_confirmed common sync i.1
                  (inspect-IsKept handler set_sync_state_value r' a)
                  (unfold inspect in handler.confirmed-names r'.world c (unfold inspect in e))))
            (assign_status-IsKept allow common sync r' a (unfold assign in l))

  reduce-IsKept :
      (picked allow voting : CaseInsensitiveSet) (sync : SyncState Version)
      (r : Replication Store World)
      → IsKept handler set_sync_state_value r
      → IsWithin r.standbys voting ⊎ IsWithin r.standbys allow
      → IsWithin allow picked
      → IsWithin allow (handler.names r.world)
      → handler.can_set picked ≡ true
      → IsKept handler set_sync_state_value
          (reduce handler set_sync_state_value ha picked allow voting sync r)
  unfolding reduce
  reduce-IsKept picked allow voting sync r h k l n s = elim (Bool-cases (eq_set common voting)) [
    | inl e ↦ rw e (assign_names-IsKept picked allow common sync r h (known k e) l s)
    | inr e ↦ rw e (
        then-IsKept handler set_sync_state_value common r
          (write_sync_state handler set_sync_state_value ha.node.name common (pos 0) sync.version r)
          (λ sync' r'. assign_names handler set_sync_state_value ha picked allow common sync' r')
          (write-Wrote handler set_sync_state_value ha.node.name common (pos 0) sync.version r h
            (λ x f. n x (inter-IsWithin_right voting allow x f)))
          (λ sync' r' h' e' w.
            assign_names-IsKept picked allow common sync' r' h'
              (λ x f. inter-IsWithin_right voting allow x (rw (sym e') f)) l s))
  ]
    where
      common : CaseInsensitiveSet
      common = inter voting allow

      known :
          IsWithin r.standbys voting ⊎ IsWithin r.standbys allow
          → eq_set (inter voting allow) voting ≡ true
          → IsWithin r.standbys allow
      known (inr k) e = k
      known (inl k) e = λ x f.
          inter-IsWithin_right voting allow x (
            eq_set-IsWithin (inter voting allow) voting (inter-IsDistinct voting allow) e x (k x f))

  -- What an inspection tells, at the names of the same moment.
  abbrev IsTold : Current → Replication Store World → Type 0
  IsTold c r =
      IsWithin c.sync_confirmed c.active
      × IsWithin c.sync_confirmed (handler.names r.world)
      × (handler.can_set c.active ≡ true)

  compare-IsKept :
      (c : Current) (voting : CaseInsensitiveSet) (sync : SyncState Version)
      (r : Replication Store World)
      → IsKept handler set_sync_state_value r
      → IsTold c r
      → IsWithin r.standbys voting ⊎ IsWithin r.standbys c.sync_confirmed
      → IsKept handler set_sync_state_value
          (compare handler set_sync_state_value ha c voting sync r)
  unfolding compare
  compare-IsKept c voting sync r h (t, n, s) k =
      if_IsKept handler set_sync_state_value
        (eq_set c.active voting && eq_set voting c.sync && eqb_ℤ c.numsync (len c.active)) r
        (reduce handler set_sync_state_value ha c.active c.sync_confirmed voting sync r) h
        (reduce-IsKept c.active c.sync_confirmed voting sync r h k t n s)

  correct_names-IsKept :
      (c : Current) (voting : CaseInsensitiveSet) (sync : SyncState Version)
      (r : Replication Store World)
      → IsKept handler set_sync_state_value r
      → IsTold c r
      → IsWithin r.standbys voting
      → IsKept handler set_sync_state_value
          (correct_names handler set_sync_state_value ha c voting sync r)
  unfolding correct_names
  correct_names-IsKept c voting sync r h (t, n, s) k =
      if_IsKept handler set_sync_state_value
        (eq_set c.active voting && not (eq_set voting c.sync_confirmed))
        (elim w.0 [
          | none ↦ w.1
          | some sync' ↦
              compare handler set_sync_state_value ha c (of_values (voters sync')) sync' w.1
        ])
        (compare handler set_sync_state_value ha c voting sync r)
        (then-IsKept handler set_sync_state_value c.sync_confirmed r w
          (λ sync' r'.
            compare handler set_sync_state_value ha c (of_values (voters sync')) sync' r')
          (write-Wrote handler set_sync_state_value ha.node.name c.sync_confirmed (pos 0)
            sync.version r h n)
          (λ sync' r' h' e' u.
            compare-IsKept c (of_values (voters sync')) sync' r' h' (t, (λ x f. rw u (n x f)), s)
              (inr (λ x f. rw (sym e') f))))
        (compare-IsKept c voting sync r h (t, n, s) (inl k))
    where
      w : Option (SyncState Version) × Replication Store World
      w =
          write_sync_state handler set_sync_state_value ha.node.name c.sync_confirmed (pos 0)
            sync.version r

  correct_leader-IsKept :
      (c : Current) (sync : SyncState Version) (r : Replication Store World)
      → IsKept handler set_sync_state_value r
      → IsTold c r
      → IsWithin r.standbys (of_values (voters sync))
      → IsKept handler set_sync_state_value
          (correct_leader handler set_sync_state_value ha c sync r)
  unfolding correct_leader
  correct_leader-IsKept c sync r h (t, n, s) k =
      if_IsKept handler set_sync_state_value (is_name sync.leader ha.node.name)
        (correct_names handler set_sync_state_value ha c (of_values (voters sync)) sync r)
        (elim w.0 [
          | none ↦ w.1
          | some sync' ↦ correct_names handler set_sync_state_value ha c [] sync' w.1
        ])
        (correct_names-IsKept c (of_values (voters sync)) sync r h (t, n, s) k)
        (then-IsKept handler set_sync_state_value [] r w
          (λ sync' r'. correct_names handler set_sync_state_value ha c [] sync' r')
          (write-Wrote handler set_sync_state_value ha.node.name [] (pos 0) sync.version r h
            (λ x f. empty-IsWithin [] _ refl x f))
          (λ sync' r' h' e' u.
            correct_names-IsKept c [] sync' r' h' (t, (λ x f. rw u (n x f)), s)
              (λ x f. subst (λ s. contains x s ≡ true) e' f)))
    where
      w : Option (SyncState Version) × Replication Store World
      w = write_sync_state handler set_sync_state_value ha.node.name [] (pos 0) sync.version r

  -- From the inspection on.
  abbrev followed : SyncState Version → Replication Store World → Replication Store World
  followed sync r =
      let i = inspect handler set_sync_state_value r in
      elim i.0 [ none ↦ i.1 | some c ↦ correct_leader handler set_sync_state_value ha c sync i.1 ]

  told :
      (r : Replication Store World) (c : Current)
      → (inspect handler set_sync_state_value r).0 ≡ some c
      → IsTold c (inspect handler set_sync_state_value r).1
  unfolding inspect
  told r c e = (
    handler.confirmed-active r.world c e,
    handler.confirmed-names r.world c e,
    handler.can_set-active r.world c e,
  )

  followed-IsKept :
      (sync : SyncState Version) (r : Replication Store World)
      → IsKept handler set_sync_state_value r
      → IsWithin r.standbys (of_values (voters sync))
      → IsKept handler set_sync_state_value (followed sync r)
  followed-IsKept sync r h k =
      let i = inspect handler set_sync_state_value r in
      let kept = inspect-IsKept handler set_sync_state_value r h in
      told-IsKept handler set_sync_state_value i.0 i.1
        (λ c. correct_leader handler set_sync_state_value ha c sync i.1) kept
        (λ c e. correct_leader-IsKept c sync i.1 kept (told r c e) (unfold inspect in k))

  enabled-IsKept :
      (r : Replication Store World) (w : Option (SyncState Version) × Replication Store World)
      → Wrote handler set_sync_state_value [] r w
      → IsKept handler set_sync_state_value
          (elim w.0 [ none ↦ w.1 | some sync ↦ followed sync w.1 ])
  enabled-IsKept r w h =
      then-IsKept handler set_sync_state_value [] r w followed h (λ sync r' h' e u.
        followed-IsKept sync r' h'
          (λ x f. absurd (none_in x (subst (λ s. contains x s ≡ true) e f))))
    where
      none_in : (x : Text) → contains x [] ≡ true → ⊥
      none_in x f = cc

  -- If the view shows the standbys in the key, and these are among the names that PostgreSQL waits for,
  -- they are so after every step of `_process_multisync_replication`, whatever the store answers.
  pub process_multisync_replication-IsKept :
      (r : Replication Store World)
      → IsKept handler set_sync_state_value r
      → IsWithin r.standbys (of_values (voters ha.cluster.sync))
      → IsKept handler set_sync_state_value
          (process_multisync_replication handler set_sync_state_value ha r)
  unfolding process_multisync_replication maybe_enable_synchronous_mode
  process_multisync_replication-IsKept r h k =
      if_enabled (is_empty_state ha.cluster.sync)
        (write_sync_state handler set_sync_state_value ha.node.name [] (pos 0)
          ha.cluster.sync.version r)
        (write-Wrote handler set_sync_state_value ha.node.name [] (pos 0) ha.cluster.sync.version r
          h (empty-IsWithin [] _ refl))
    where
      if_enabled :
          (b : Bool) (w : Option (SyncState Version) × Replication Store World)
          → Wrote handler set_sync_state_value [] r w
          → IsKept handler set_sync_state_value
              (elim (if b then w else (some ha.cluster.sync, r)).0 [
                | none ↦ (if b then w else (some ha.cluster.sync, r)).1
                | some sync ↦ followed sync (if b then w else (some ha.cluster.sync, r)).1
              ])
      if_enabled true w g = enabled-IsKept r w g
      if_enabled false w g = followed-IsKept ha.cluster.sync r h k
