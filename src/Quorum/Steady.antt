-- ===== src/Quorum/Steady.antt =====
-- The optimal state of the resolver is left alone.
use area.Common.{
  ℤ, pos, eqb_ℤ→parts, ◌+ℤ◌, ◌-ℤ◌, ◌≤ℤ◌, ltb_ℤ, eqb_ℤ, min_ℤ, int_laws, ◌≡◌, refl, ap, List, [],
  ◌∷◌, true, false, not, ◌&&◌, ◌||◌, Text, eq_text, eq_text_refl, length, arith, Bool-cases, inl,
  inr, keep, every, and-eq-true,
}
use area.Collections.{
  CaseInsensitiveSet, same_key, contains, of_values, len, union, inter, diff, is_less, eq_set,
  issubset,
}
use area.Collections.Laws.{contains-union}
use area.Collections.Size.{IsDistinct, Includes-of_forall, length-le_of_Includes, union-IsDistinct}
use area.Quorum.Generator.{ok, Run, pure, gets, modify, when, require, catch, ◌>>=◌}
use area.Quorum.Transition.{Transition}
use area.Quorum.Resolver.{Resolver, invariants_hold, check_invariants, singleton, nonempty}
use area.Quorum.Steps.{
  handle_non_steady_cases, handle_safety_margin, remove_gone_nodes, add_new_nodes,
  handle_replication_factor_change, handle_leader, confirm_numsync, generate_steady,
  generate_transitions, merge, merge_result, iterate,
}
use area.Quorum.Overlap.{contains-all_nodes}
use area.Quorum.Guarantee.{guaranteed_of_sync, contains_of_issubset, contains-singleton}

-- The optimal state of the class's description: the leader is the wanted one, `sync`, `voters` and
-- `active` are one set, `numsync` is as wanted and confirmed, and `quorum` is the rest.
pub record IsSteady (self : Resolver) : Type 0 where
  pub led : self.leader ≡ self.leader_wanted
  pub distinct : IsDistinct self.sync
  pub voters_sync : issubset self.voters self.sync ≡ true
  pub sync_voters : issubset self.sync self.voters ≡ true
  pub active_sync : issubset self.active self.sync ≡ true
  pub sync_active : issubset self.sync self.active ≡ true
  pub numsync : self.numsync ≡ min_ℤ self.sync_wanted (len self.sync)
  pub quorum : self.quorum ≡ len self.sync -ℤ self.numsync
  pub confirmed : self.numsync ≤ℤ self.numsync_confirmed

module _ (a b : CaseInsensitiveSet) (sub : issubset a b ≡ true) where
  inside : (x : Text) → contains x a ≡ true → contains x b ≡ true
  inside x = contains_of_issubset x a b sub

  diff-eq-nil : diff a b ≡ []
  unfolding diff of_values issubset
  diff-eq-nil = ap of_values (keep_none a (and-eq-true _ _ sub).1)
    where
      keep_none :
          (s : CaseInsensitiveSet)
          → every (λ v. contains v b) s ≡ true
          → keep (λ v. not (contains v b)) s ≡ []
      keep_none [] h = refl
      keep_none (v ∷ s) h = ground (arith, keep_none s)

  module _ (back : issubset b a ≡ true) where
    is_less-eq-false : is_less a b ≡ false
    unfolding is_less issubset
    is_less-eq-false = ground arith

    eq_set-eq-true : eq_set a b ≡ true
    unfolding eq_set issubset
    eq_set-eq-true = ground arith

    length-eq : length a ≡ length b
    unfolding issubset
    length-eq = ground arith

    length-union-eq : IsDistinct b → length (union a b) ≡ length b
    length-union-eq d = omega (
      arith,
      length-le_of_Includes b (union a b) d
          (Includes-of_forall (union a b) b λ x e. ground (arith, contains-union x a b)),
      length-le_of_Includes (union a b) b (union-IsDistinct a b)
          (Includes-of_forall b (union a b) λ x e. ground (arith, contains-union x a b, inside x)),
    )

min-eq_left : (a b : ℤ) → a ≤ℤ b → min_ℤ a b ≡ a
min-eq_left a b h = ground arith

le-min : (n a b : ℤ) → n ≤ℤ a → n ≤ℤ b → n ≤ℤ min_ℤ a b
le-min n a b h k = ground arith

module _ (self : Resolver) (h : IsSteady self) (ts : List Transition) where
  abbrev now : Run Resolver Transition
  now = record { self = self; yielded = ts }

  nodes : length (union self.voters self.sync) ≡ length self.sync
  nodes = length-union-eq self.voters self.sync h.voters_sync h.sync_voters h.distinct

  margin : self.quorum +ℤ self.numsync -ℤ len (union self.voters self.sync) ≡ pos 0
  margin = rw (nodes, h.quorum) (omega int_laws)

  no_change :
      (eqb_ℤ self.numsync self.sync_wanted
        && ltb_ℤ (pos 0) (self.quorum +ℤ self.numsync -ℤ len (union self.voters self.sync))
        && ltb_ℤ self.numsync_confirmed self.numsync)
      ≡ false
  no_change = rw margin (ground arith)

  safety_margin-idle : handle_safety_margin now ≡ (ok tt, now)
  unfolding handle_safety_margin gets ◌>>=◌ when pure
  safety_margin-idle = rw (least, no_change, margin)
    where
      least : min_ℤ self.numsync self.numsync_confirmed ≡ self.numsync
      least = min-eq_left self.numsync self.numsync_confirmed h.confirmed

  non_steady-idle : handle_non_steady_cases now ≡ (ok tt, now)
  unfolding handle_non_steady_cases gets ◌>>=◌ when pure require
  non_steady-idle =
      rw
        (
          is_less-eq-false self.sync self.voters h.sync_voters h.voters_sync,
          is_less-eq-false self.voters self.sync h.voters_sync h.sync_voters,
          eq_set-eq-true self.voters self.sync h.voters_sync h.sync_voters,
        )
        safety_margin-idle

  gone_nodes-idle : remove_gone_nodes now ≡ (ok tt, now)
  unfolding remove_gone_nodes gets ◌>>=◌ when pure
  gone_nodes-idle = rw (diff-eq-nil self.sync self.active h.sync_active)

  new_nodes-idle : add_new_nodes now ≡ (ok tt, now)
  unfolding add_new_nodes gets ◌>>=◌ when pure
  new_nodes-idle = rw (diff-eq-nil self.active self.sync h.active_sync)

  factor_change-idle : handle_replication_factor_change now ≡ (ok tt, now)
  unfolding handle_replication_factor_change gets ◌>>=◌ when pure
  factor_change-idle = rw no_increase
    where
      no_increase : min_ℤ self.sync_wanted (len self.sync) -ℤ self.numsync ≡ pos 0
      no_increase = rw (← h.numsync) (omega int_laws)

  guaranteed : invariants_hold self ≡ true
  unfolding invariants_hold
  guaranteed =
      guaranteed_of_sync self.leader self.quorum self.voters self.numsync self.sync
        self.leader_wanted (self.leader_wanted ∷ self.sync)
        (λ x e. ground (
          arith,
          contains-all_nodes x self.leader self.voters self.sync self.leader_wanted,
          around x,
          inside self.voters self.sync h.voters_sync x,
        ))
        (rw h.quorum (omega int_laws))
        (λ x e. ground (arith, around x, inside self.sync self.voters h.sync_voters x))
    where
      around :
          (x : Text)
          → (contains x (union self.voters (singleton self.leader))
              ≡ (contains x self.voters || same_key x self.leader_wanted))
            × (contains x (union self.sync (singleton self.leader_wanted))
                ≡ (contains x self.sync || same_key x self.leader_wanted))
      around x = (
        rw h.led (
            ground (
              arith,
              contains-union x self.voters (singleton self.leader_wanted),
              contains-singleton x self.leader_wanted,
            )),
        ground (
          arith,
          contains-union x self.sync (singleton self.leader_wanted),
          contains-singleton x self.leader_wanted,
        ),
      )

  leader-idle : handle_leader now ≡ (ok false, now)
  unfolding handle_leader gets ◌>>=◌ when pure check_invariants
  leader-idle = rw (same, guaranteed)
    where
      same : eq_text self.leader_wanted self.leader ≡ true
      same = rw h.led (eq_text_refl self.leader_wanted)

module _ (self : Resolver) (h : IsSteady self) where
  recount-IsSteady : (n : ℤ) → self.numsync ≤ℤ n → IsSteady (record self { numsync_confirmed = n })
  recount-IsSteady n le = record {
    led = h.led;
    distinct = h.distinct;
    voters_sync = h.voters_sync;
    sync_voters = h.sync_voters;
    active_sync = h.active_sync;
    sync_active = h.sync_active;
    numsync = h.numsync;
    quorum = h.quorum;
    confirmed = le;
  }

  -- A count that was 0 becomes one that `numsync` is still within.
  recounted :
      eqb_ℤ self.numsync_confirmed (pos 0) ≡ true
      → self.numsync ≤ℤ min_ℤ (len (inter self.sync self.active)) (len self.voters -ℤ self.quorum)
  recounted e =
      le-min self.numsync (len (inter self.sync self.active)) (len self.voters -ℤ self.quorum)
        (omega (arith, eqb_ℤ→parts self.numsync_confirmed (pos 0) e, h.confirmed))
        (rw h.quorum
          (omega (int_laws, length-eq self.voters self.sync h.voters_sync h.sync_voters)))

  confirm-IsSteady : IsSteady (confirm_numsync self)
  unfolding confirm_numsync
  confirm-IsSteady =
      elim (Bool-cases
        (eqb_ℤ self.numsync_confirmed (pos 0) && nonempty (inter self.sync self.active))) [
          | inl e ↦ rw e (recount-IsSteady _ (recounted (and-eq-true _ _ e).0))
          | inr e ↦ rw e h
        ]

  generate-idle :
      generate_transitions (record { self = self; yielded = [] })
      ≡ (ok tt, record { self = confirm_numsync self; yielded = [] })
  unfolding generate_transitions generate_steady catch gets ◌>>=◌ modify pure require
  generate-idle = rw (leader-idle self h []) (
      rw (
        same_leader,
        non_steady-idle (confirm_numsync self) confirm-IsSteady [],
        gone_nodes-idle (confirm_numsync self) confirm-IsSteady [],
        new_nodes-idle (confirm_numsync self) confirm-IsSteady [],
        factor_change-idle (confirm_numsync self) confirm-IsSteady [],
      ))
    where
      same_leader : eq_text self.leader self.leader_wanted ≡ true
      same_leader = rw h.led (eq_text_refl self.leader_wanted)

-- From the optimal state the iteration returns and yields no transition.
pub iterate-IsSteady : (self : Resolver) → IsSteady self → iterate self ≡ ok []
unfolding iterate merge_result merge
iterate-IsSteady self h = rw (generate-idle self h)
