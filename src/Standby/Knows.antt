-- ===== src/Standby/Knows.antt =====
-- What `current_state` tells is about replicas, and about the value that PostgreSQL has.
use area.Common.{
  ℕ, ℤ, ◌≡◌, refl, sym, ap, ◌∙◌, inl, inr, arith, Bool-cases, Bool, true, false, not, and-eq-true,
  Option, none, some, List, [], ◌∷◌, ◌++◌, keep, every, Text, eq_text, eq_of_eq_text, if◌then◌else◌,
}
use area.Collections.{CaseInsensitiveSet, same_key, add}
use area.Dictionary.{CaseInsensitiveDict}
use area.Sync.State.{SyncState}
use area.Sync.Handler.{Current}
use area.Cluster.View.{Cluster}
use area.Standby.Replicas.{Postgresql, Replica, replica_list, max_lsn}
use area.Standby.State.{
  Handler, Limits, parsed, handle_change, ready_one, process_replica_readiness, choose_one, choose,
  promotable_first, current_state,
}
use area.Standby.Handled.{IsHandled, handle_change-IsHandled, process-IsHandled}
use area.Standby.Bounded.{node_count}

-- The names of the chosen standbys are names of replicas.
module _ (p : Text → Bool) where
  abbrev named : List Replica → Bool
  named rs = every (λ r. p r.application_name) rs

  every-add :
      (s : CaseInsensitiveSet) (v : Text) → p v ≡ true → every p s ≡ true → every p (add s v) ≡ true
  unfolding add
  every-add [] v h k = ground arith
  every-add (w ∷ s) v h k = elim (Bool-cases (same_key v w)) [
    | inl e ↦ rw e (ground arith)
    | inr e ↦ rw e (ground (arith, every-add s v h))
  ]

  named-append :
      (rs ss : List Replica) → named rs ≡ true → named ss ≡ true → named (rs ++ ss) ≡ true
  named-append [] ss h k = k
  named-append (r ∷ rs) ss h k = ground (arith, named-append rs ss)

  named-keep : (q : Replica → Bool) (rs : List Replica) → named rs ≡ true → named (keep q rs) ≡ true
  named-keep q [] h = refl
  named-keep q (r ∷ rs) h = elim (Bool-cases (q r)) [
    | inl e ↦ rw e (ground (arith, named-keep q rs))
    | inr e ↦ rw e (ground (arith, named-keep q rs))
  ]

  named-promotable_first :
      (rs : List Replica) → named rs ≡ true → named (promotable_first rs) ≡ true
  unfolding promotable_first
  named-promotable_first rs h =
      named-append (keep (λ r. not r.nofailover) rs) (keep (λ r. r.nofailover) rs)
        (named-keep (λ r. not r.nofailover) rs h) (named-keep (λ r. r.nofailover) rs h)

  module _ (limits : Limits) (count max_position : ℤ) (ready : CaseInsensitiveDict ℤ) where
    every-choose_one :
        (r : Replica) (active confirmed : CaseInsensitiveSet)
        → p r.application_name ≡ true
        → every p active ≡ true
        → every p (choose_one limits count max_position ready r active confirmed).0.0 ≡ true
    unfolding choose_one
    every-choose_one r active confirmed h k =
        ground (arith, every-add active r.application_name h k)

    every-choose :
        (rs : List Replica) (active confirmed : CaseInsensitiveSet)
        → named rs ≡ true
        → every p active ≡ true
        → every p (choose limits count max_position ready rs active confirmed).0 ≡ true
    unfolding choose
    every-choose [] active confirmed h k = k
    every-choose (r ∷ rs) active confirmed h k =
        let (a, b) = and-eq-true (p r.application_name) (named rs) h in
        let c = choose_one limits count max_position ready r active confirmed in
        let g = every-choose_one r active confirmed a k in
        ended c.1 c.0 (choose limits count max_position ready rs c.0.0 c.0.1) g
          (every-choose rs c.0.0 c.0.1 b g)
      where
        ended :
            (b : Bool) (x y : CaseInsensitiveSet × CaseInsensitiveSet)
            → every p x.0 ≡ true
            → every p y.0 ≡ true
            → every p (if b then x else y).0 ≡ true
        ended true x y g h = g
        ended false x y g h = h

-- A handler that knows what the value means that it knows.
abbrev pub IsKnowing : Handler → Type 0
IsKnowing h = IsHandled h × (h.ssn_data ≡ parsed h.synchronous_standby_names)

-- After a look it knows the value that PostgreSQL has.
handle_change-parsed :
    (pg : Postgresql) (h : Handler)
    → h.ssn_data ≡ parsed h.synchronous_standby_names
    → ((handle_change pg h).ssn_data ≡ parsed pg.synchronous_standby_names)
      × ((handle_change pg h).ssn_data ≡ parsed (handle_change pg h).synchronous_standby_names)
unfolding handle_change
handle_change-parsed pg h k =
    elim (Bool-cases (eq_text pg.synchronous_standby_names h.synchronous_standby_names)) [
      | inl e ↦ rw e (
        k
            ∙ ap parsed
                (sym (eq_of_eq_text pg.synchronous_standby_names h.synchronous_standby_names e)),
        k,
      )
      | inr e ↦ rw e (refl, refl)
    ]

pub handle_change-IsKnowing :
    (pg : Postgresql) (h : Handler) → IsKnowing h → IsKnowing (handle_change pg h)
handle_change-IsKnowing pg h (k, e) =
    (handle_change-IsHandled pg h k, (handle_change-parsed pg h e).1)

module _ {Version : Type 0} (limits : Limits) (pg : Postgresql) (sync : SyncState Version) where
  ready_one-names :
      (h : Handler) (r : Replica)
      → (ready_one limits pg sync h r).synchronous_standby_names ≡ h.synchronous_standby_names
  unfolding ready_one
  ready_one-names h r = ground arith

  process-names :
      (h : Handler) (rs : List Replica)
      → (process_replica_readiness limits pg sync h rs).synchronous_standby_names
        ≡ h.synchronous_standby_names
  unfolding process_replica_readiness
  process-names h [] = refl
  process-names h (r ∷ rs) = process-names (ready_one limits pg sync h r) rs ∙ ready_one-names h r

module _ {Version : Type 0} (frames : ℕ) (limits : Limits) (pg pg' : Postgresql)
    (cluster : Cluster Version) (h : Handler) where
  ready : List Replica → Handler
  ready rs = process_replica_readiness limits pg' cluster.sync (handle_change pg h) rs

  chosen : List Replica → CaseInsensitiveSet × CaseInsensitiveSet
  chosen rs =
      choose limits (node_count limits pg') (max_lsn pg' rs) (ready rs).ready_replicas
        (promotable_first rs) [] []

  abbrev state_of : List Replica → Current
  state_of rs = record {
    numsync = (ready rs).ssn_data.num;
    sync = if (ready rs).ssn_data.has_star then [] else (ready rs).ssn_data.members;
    sync_confirmed = (chosen rs).1;
    active = (chosen rs).0;
  }

  abbrev told : Option (List Replica) → Option (Current × Handler)
  told none = none
  told (some rs) = some (state_of rs, ready rs)

  current_state-eq :
      current_state frames limits pg pg' cluster h ≡ told (replica_list frames pg' cluster.members)
  unfolding current_state ready chosen
  current_state-eq = same (replica_list frames pg' cluster.members)
    where
      same :
          (o : Option (List Replica))
          → (elim o as (λ _. Option (Current × Handler)) [
            | none ↦ none
            | some rs ↦ some (state_of rs, ready rs)
          ])
            ≡ told o
      same none = refl
      same (some rs) = refl

  -- What a result is made of.
  current_state-parts :
      (c : Current) (h' : Handler)
      → current_state frames limits pg pg' cluster h ≡ some (c, h')
      → (rs : List Replica) × (replica_list frames pg' cluster.members ≡ some rs)
        × (h' ≡ ready rs)
        × (c.active ≡ (chosen rs).0)
  current_state-parts c h' e =
      of_list (replica_list frames pg' cluster.members) refl (sym current_state-eq ∙ e)
    where
      of_list :
          (o : Option (List Replica))
          → replica_list frames pg' cluster.members ≡ o
          → told o ≡ some (c, h')
          → (rs : List Replica) × (replica_list frames pg' cluster.members ≡ some rs)
            × (h' ≡ ready rs)
            × (c.active ≡ (chosen rs).0)
      of_list none n k = cc
      of_list (some rs) n k =
          let q = injected k in
          (
            rs,
            n,
            ap (λ (x : Current × Handler). x.1) q,
            ap (λ (x : Current × Handler). x.0.active) q,
          )
        where
          injected : {x y : Current × Handler} → some x ≡ some y → y ≡ x
          injected k = cc

  -- After a look the handler knows the value that PostgreSQL has.
  pub current_state-knows :
      (c : Current) (h' : Handler)
      → IsKnowing h
      → current_state frames limits pg pg' cluster h ≡ some (c, h')
      → (h'.ssn_data ≡ parsed pg.synchronous_standby_names)
        × (h'.ssn_data ≡ parsed h'.synchronous_standby_names)
  unfolding ready
  current_state-knows c h' k e =
      let (rs, _, same, _) = current_state-parts c h' e in
      let (a, b) = handle_change-parsed pg h k.1 in
      let (_, kept) =
        process-IsHandled limits pg' cluster.sync (handle_change pg h) rs
          (handle_change-IsHandled pg h k.0) in
      let ssn = ap (λ (h : Handler). h.ssn_data) same ∙ kept in
      (
        ssn ∙ a,
        ssn
            ∙ b
            ∙ ap parsed (
                sym (
                  ap (λ (h : Handler). h.synchronous_standby_names) same
                  ∙ process-names limits pg' cluster.sync (handle_change pg h) rs)),
      )

  -- What is true of the names of all replicas is true of the chosen ones.
  pub current_state-every :
      (p : Text → Bool) (c : Current) (h' : Handler)
      → ((rs : List Replica)
          → replica_list frames pg' cluster.members ≡ some rs
          → every (λ r. p r.application_name) rs ≡ true)
      → current_state frames limits pg pg' cluster h ≡ some (c, h')
      → every p c.active ≡ true
  unfolding chosen
  current_state-every p c h' f e =
      let (rs, n, _, same) = current_state-parts c h' e in
      ap (every p) same
      ∙ every-choose p limits (node_count limits pg') (max_lsn pg' rs) (ready rs).ready_replicas
          (promotable_first rs) [] [] (named-promotable_first p rs (f rs n)) refl
