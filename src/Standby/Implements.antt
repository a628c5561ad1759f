-- ===== src/Standby/Implements.antt =====
-- `SyncHandler` keeps the contract that the HA loop relies on, without quorum commit. PostgreSQL waits
-- for the names that it was last given.
use area.Common.{
  ℕ, suc, ◌≤◌, leb, ℤ, pos, ◌≤ℤ◌, int_laws, ◌≡◌, refl, sym, subst, arith, Bool, true, false, not,
  ◌||◌, Option, none, some, List, every, length, Text, if◌then◌else◌,
}
use area.Collections.{CaseInsensitiveSet, contains, len}
use area.Collections.Within.{IsWithin}
use area.Sync.Handler.{Current, SyncHandler}
use area.Cluster.View.{Cluster}
use area.Standby.Parse.{Ssn}
use area.Standby.Format.{Writing, has_asterisk, sync_param}
use area.Standby.Replicas.{Postgresql, Replica, replica_list}
use area.Standby.State.{Handler, Limits, handle_change, current_state}
use area.Standby.Chosen.{current_state-confirmed}
use area.Standby.Bounded.{node_count, most, current_state-bounded}
use area.Standby.InForce.{is_usable, is_settable, names_of, value_of_param, sync_param-IsWithin}
use area.Standby.Knows.{
  IsKnowing, handle_change-IsKnowing, current_state-knows, current_state-every,
}

settable_of :
    (multiple : Bool) (limits : Limits) (pg : Postgresql) (names : CaseInsensitiveSet)
    → pg.supports_multiple_sync ≡ multiple
    → every is_usable names ≡ true
    → len names ≤ℤ most (node_count limits pg)
    → is_settable multiple names ≡ true
unfolding is_settable
settable_of true limits pg names m u b = rw u refl
settable_of false limits pg names m u b = rw u (
    short (length names)
      (subst (λ c. len names ≤ℤ most (if c then limits.synchronous_node_count else pos 1)) m b))
  where
    short : (n : ℕ) → pos n ≤ℤ most (pos 1) → leb n 1 ≡ true
    short n h = let l : n ≤ 1 = omega (int_laws, h) in ground arith

-- What is seen at a look: the answers of PostgreSQL before and after the cached values are dropped, the
-- view of the cluster, and whether a value that was set is reloaded by a running primary.
pub record Look (Version : Type 0) : Type 0 where
  pub before : Postgresql
  pub after : Postgresql
  pub cluster : Cluster Version
  pub is_reloaded : Bool

-- The value that PostgreSQL has, what the handler knows, and how often it has looked.
pub record Machine : Type 0 where
  pub value : Text
  pub handler : Handler
  pub looks : ℕ

module _ {Version : Type 0} (frames : ℕ) (limits : Limits) (writing : Writing)
    (seen : ℕ → Look Version) where
  -- PostgreSQL answers with the value that it has.
  abbrev pub at : Text → Postgresql → Postgresql
  at value pg = record pg {
    synchronous_standby_names = value;
    supports_multiple_sync = writing.supports_multiple_sync;
  }

  abbrev pub outcome_of : Machine → Option (Current × Handler) → Option Current × Machine
  outcome_of m none = (
    none,
    record m {
      handler = handle_change (at m.value (seen m.looks).before) m.handler;
      looks = suc m.looks;
    },
  )
  outcome_of m (some (c, h)) = (some c, record m { handler = h; looks = suc m.looks })

  -- `current_state`; a RecursionError comes after the change of the value was handled.
  unfoldable pub look : Machine → Option Current × Machine
  look m =
      let s = seen m.looks in
      outcome_of m
        (current_state frames limits (at m.value s.before) (at m.value s.after) s.cluster m.handler)

  -- `set_synchronous_standby_names`
  unfoldable pub set_names : CaseInsensitiveSet → Option ℤ → Machine → Machine
  set_names names num m =
      let value = value_of_param (sync_param writing names num) in
      let s = seen m.looks in
      record {
        value = value;
        handler =
            if not s.is_reloaded || has_asterisk names num
            then m.handler
            else handle_change (at value s.before) m.handler;
        looks = suc m.looks;
      }

  look-eq :
      (m : Machine)
      → look m
        ≡ outcome_of m (
            current_state frames limits
              (at m.value (seen m.looks).before)
              (at m.value (seen m.looks).after)
              (seen m.looks).cluster
              m.handler)
  unfolding look
  look-eq m = refl

  module _ (q : limits.is_quorum_commit_mode ≡ false) (r : writing.is_quorum_commit_mode ≡ false)
      (usable : (n : ℕ) (value : Text) (rs : List Replica)
        → replica_list frames (at value (seen n).after) (seen n).cluster.members ≡ some rs
        → every (λ r. is_usable r.application_name) rs ≡ true) where
    abbrev pub IsRunning : Machine → Type 0
    IsRunning m = IsKnowing m.handler

    -- What a look tells, if it tells anything.
    abbrev pub Tells : Machine → Option Current × Machine → Type 0
    Tells m (none, m') = IsRunning m' × (m'.value ≡ m.value)
    Tells m (some c, m') =
        IsRunning m'
        × (m'.value ≡ m.value)
        × IsWithin c.sync_confirmed c.active
        × IsWithin c.sync_confirmed (names_of m.value)
        × (is_settable writing.supports_multiple_sync c.active ≡ true)

    pub look-Tells : (m : Machine) → IsRunning m → Tells m (look m)
    look-Tells m k = subst (Tells m) (sym (look-eq m)) (
        of_state
          (current_state frames limits (at m.value (seen m.looks).before)
            (at m.value (seen m.looks).after) (seen m.looks).cluster m.handler)
          refl)
      where
        s : Look Version
        s = seen m.looks

        of_state :
            (o : Option (Current × Handler))
            → current_state frames limits
                (at m.value s.before)
                (at m.value s.after)
                s.cluster
                m.handler
              ≡ o
            → Tells m (outcome_of m o)
        of_state none e = (handle_change-IsKnowing (at m.value s.before) m.handler k, refl)
        of_state (some (c, h')) e =
            let pg = at m.value s.before in
            let pg' = at m.value s.after in
            let (active, listed, handled) =
              current_state-confirmed frames limits pg pg' s.cluster m.handler c h' k.0 e in
            let (known, knowing) =
              current_state-knows frames limits pg pg' s.cluster m.handler c h' k e in
            (
              (handled, knowing),
              refl,
              active,
              (λ x f. subst (λ (ssn : Ssn). contains x ssn.members ≡ true) known (listed x f)),
              settable_of writing.supports_multiple_sync limits pg' c.active refl
                  (current_state-every frames limits pg pg' s.cluster m.handler is_usable c h'
                    (usable m.looks m.value) e)
                  (current_state-bounded frames limits pg pg' s.cluster m.handler c h' q e),
            )

    pub Tells-IsRunning : (m : Machine) (x : Option Current × Machine) → Tells m x → IsRunning x.1
    Tells-IsRunning m (none, m') t = t.0
    Tells-IsRunning m (some c, m') t = t.0

    pub Tells-value : (m : Machine) (x : Option Current × Machine) → Tells m x → x.1.value ≡ m.value
    Tells-value m (none, m') t = t.1
    Tells-value m (some c, m') t = t.1

    -- What is told of the state.
    pub Tells-state :
        (m : Machine) (x : Option Current × Machine) (c : Current)
        → Tells m x
        → x.0 ≡ some c
        → IsWithin c.sync_confirmed c.active
          × IsWithin c.sync_confirmed (names_of x.1.value)
          × (is_settable writing.supports_multiple_sync c.active ≡ true)
    Tells-state m (none, m') c t e = cc
    Tells-state m (some d, m') c (_, v, a, n, s) e =
        let same : d ≡ c = injected e in
        subst
          (λ (c : Current).
            IsWithin c.sync_confirmed c.active
            × IsWithin c.sync_confirmed (names_of m'.value)
            × (is_settable writing.supports_multiple_sync c.active ≡ true))
          same (a, subst (λ value. IsWithin d.sync_confirmed (names_of value)) (sym v) n, s)
      where
        injected : {x y : Current} → some x ≡ some y → x ≡ y
        injected e = cc

    pub set_names-IsRunning :
        (names : CaseInsensitiveSet) (num : Option ℤ) (m : Machine)
        → IsRunning m
        → IsRunning (set_names names num m)
    unfolding set_names
    set_names-IsRunning names num m k =
        if_knowing (not (seen m.looks).is_reloaded || has_asterisk names num)
      where
        changed : Handler
        changed =
            handle_change (at (value_of_param (sync_param writing names num)) (seen m.looks).before)
              m.handler

        if_knowing : (b : Bool) → IsKnowing (if b then m.handler else changed)
        if_knowing true = k
        if_knowing false = handle_change-IsKnowing _ m.handler k

    pub set_names-value :
        (names : CaseInsensitiveSet) (num : Option ℤ) (m : Machine)
        → (set_names names num m).value ≡ value_of_param (sync_param writing names num)
    unfolding set_names
    set_names-value names num m = refl

    -- The handler, as the HA loop sees it: it knows what the value means that it knows.
    abbrev pub Running : Type 0
    Running = (m : Machine) × IsRunning m

    unfoldable pub handler : SyncHandler Running
    handler = record {
      names = λ w. names_of w.0.value;
      current_state =
          λ w. ((look w.0).0, ((look w.0).1, Tells-IsRunning w.0 (look w.0) (look-Tells w.0 w.1)));
      set_synchronous_standby_names =
          λ names num w. (set_names names num w.0, set_names-IsRunning names num w.0 w.1);
      can_set = is_settable writing.supports_multiple_sync;
      confirmed-active = λ w c e. (Tells-state w.0 (look w.0) c (look-Tells w.0 w.1) e).0;
      confirmed-names = λ w c e. (Tells-state w.0 (look w.0) c (look-Tells w.0 w.1) e).1;
      can_set-active = λ w c e. (Tells-state w.0 (look w.0) c (look-Tells w.0 w.1) e).2;
      current_state-names = λ w x e.
          subst (λ value. contains x (names_of value) ≡ true)
            (sym (Tells-value w.0 (look w.0) (look-Tells w.0 w.1))) e;
      set-names = λ names w s.
          subst (λ value. IsWithin names (names_of value)) (sym (set_names-value names none w.0))
            (sync_param-IsWithin writing names r s);
    }
