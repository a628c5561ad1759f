-- ===== src/Ha/Votes.antt =====
-- The votes that the loop counts are those of the nodes that are not ahead.
use area.Common.{
  ℕ, suc, ℤ, pos, ◌+ℤ◌, ltb_ℤ, int_laws, eq_of_parts, ◌≡◌, refl, sym, ap, ◌∙◌, inl, inr, arith,
  Bool-cases, Option-cases, Bool, true, false, not, ◌&&◌, Option, none, some, List, [], ◌∷◌, map,
  keep, length, Text, if◌then◌else◌,
}
use area.Collections.{contains, same_key}
use area.Collections.Size.{IsDistinct}
use area.Cluster.Member.{Member}
use area.Ha.Status.{MemberStatus, is_capable}
use area.Ha.Node.{Ha}
use area.Ha.Race.{Tally, voting_set, count_vote, consider, poll}

abbrev votes_of : Option Tally → ℤ
votes_of none = pos 0
votes_of (some t) = t.quorum_votes

plus_zero : (a : ℤ) → a ≡ a +ℤ pos 0
plus_zero a = eq_of_parts a (a +ℤ pos 0) (omega int_laws)

plus_suc : (a : ℤ) (n : ℕ) → a +ℤ pos 1 +ℤ pos n ≡ a +ℤ pos (suc n)
plus_suc a n = eq_of_parts (a +ℤ pos 1 +ℤ pos n) (a +ℤ pos (suc n)) (omega int_laws)

module _ {Version : Type 0} (ha : Ha Version) where
  -- A running node of the voting set that is not ahead.
  abbrev pub is_vote : MemberStatus → Bool
  is_vote st =
      is_capable st
      && not (ltb_ℤ ha.node.last_operation st.wal_position)
      && ltb_ℤ (pos 0) st.wal_position
      && contains st.member.name (voting_set ha)

  consider-quorum_votes :
      (leader_name : Option Text) (st : MemberStatus) (t : Tally) {t' : Tally}
      → consider ha leader_name st t ≡ some t'
      → t'.quorum_votes ≡ (if is_vote st then t.quorum_votes +ℤ pos 1 else t.quorum_votes)
  unfolding consider count_vote
  consider-quorum_votes leader_name st t h = ground arith

  -- The votes that a loop to its end has added.
  pub poll-quorum_votes :
      (leader_name : Option Text) (sts : List MemberStatus) (t : Tally) {t' : Tally}
      → poll ha leader_name sts t ≡ some t'
      → t'.quorum_votes ≡ t.quorum_votes +ℤ pos (length (keep is_vote sts))
  unfolding poll
  poll-quorum_votes leader_name [] t h = sym (ap votes_of h) ∙ plus_zero t.quorum_votes
  poll-quorum_votes leader_name (st ∷ sts) t {t'} h =
      elim (Option-cases (consider ha leader_name st t)) [
        | inl e ↦ absurd (none_some (rw (e, poll) at h))
        | inr (u, e) ↦
            step u (consider-quorum_votes leader_name st t e)
              (poll-quorum_votes leader_name sts u (rw (e, poll) at h))
      ]
    where
      none_some : none ≡ some t' → ⊥
      none_some k = cc

      step :
          (u : Tally)
          → u.quorum_votes ≡ (if is_vote st then t.quorum_votes +ℤ pos 1 else t.quorum_votes)
          → t'.quorum_votes ≡ u.quorum_votes +ℤ pos (length (keep is_vote sts))
          → t'.quorum_votes ≡ t.quorum_votes +ℤ pos (length (keep is_vote (st ∷ sts)))
      step u a b = elim (Bool-cases (is_vote st)) [
        | inl v ↦ rw v (
            b
            ∙ ap (λ q. q +ℤ pos (length (keep is_vote sts))) (rw v at a)
            ∙ plus_suc t.quorum_votes _)
        | inr v ↦ rw v (b ∙ ap (λ q. q +ℤ pos (length (keep is_vote sts))) (rw v at a))
      ]

-- The names of the members that pass a test.
abbrev pub names : List Member → List Text
names ms = map (λ (m : Member). m.name) ms

pub contains-names-keep :
    (p : Member → Bool) (ms : List Member) (x : Text)
    → contains x (names ms) ≡ false
    → contains x (names (keep p ms)) ≡ false
contains-names-keep p [] x h = refl
contains-names-keep p (m ∷ ms) x h = ground (arith, contains-names-keep p ms x)

pub contains-names :
    (p : Member → Bool) (ms : List Member) (x : Text)
    → contains x (names (keep p ms)) ≡ true
    → (m : Member) × (same_key x m.name ≡ true) × (p m ≡ true)
contains-names p [] x h = cc
contains-names p (m ∷ ms) x h = elim (Bool-cases (p m)) [
  | inl e ↦ elim (Bool-cases (same_key x m.name)) [
    | inl k ↦ (m, k, e)
    | inr k ↦ contains-names p ms x (rw (e, k) at h)
  ]
  | inr e ↦ contains-names p ms x (rw e at h)
]

pub length-keep-map :
    (p : MemberStatus → Bool) (f : Member → MemberStatus) (ms : List Member)
    → length (keep p (map f ms)) ≡ length (names (keep (λ m. p (f m)) ms))
length-keep-map p f [] = refl
length-keep-map p f (m ∷ ms) = ground (arith, length-keep-map p f ms)

pub IsDistinct-keep :
    (p : Member → Bool) (ms : List Member) → IsDistinct (names ms) → IsDistinct (names (keep p ms))
IsDistinct-keep p [] d = tt
IsDistinct-keep p (m ∷ ms) d = elim (Bool-cases (p m)) [
  | inl e ↦ rw e (contains-names-keep p ms m.name d.0, IsDistinct-keep p ms d.1)
  | inr e ↦ rw e (IsDistinct-keep p ms d.1)
]
