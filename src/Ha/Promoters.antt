-- ===== src/Ha/Promoters.antt =====
-- The nodes that voted for the winner of a leader race, in quorum commit mode.
use area.Common.{
  ℕ, suc, ℤ, pos, negsuc, ◌+ℤ◌, ◌≤ℤ◌, ◌<ℤ◌, ltb_ℤ, leb_ℤ, int_laws, eq_of_parts, ◌≡◌, refl, sym, ap,
  subst, ◌∙◌, inl, inr, arith, Bool-cases, Option-cases, Bool, true, false, ◌||◌, Option, none,
  some, List, [], ◌∷◌, map, keep, length, Text, if◌then◌else◌,
}
use area.Collections.{CaseInsensitiveSet, contains, same_key, union, of_values}
use area.Collections.Laws.{contains-of_values, contains-union, contains-congr}
use area.Collections.Size.{IsDistinct}
use area.Quorum.Resolver.{singleton}
use area.Quorum.Overlap.{leb_ℤ→≤ℤ}
use area.Sync.State.{is_set, is_empty_state, or_empty, members, voters}
use area.Cluster.Member.{Member, Leader}
use area.Sync.Written.{members-eq}
use area.Ha.Status.{
  ApiResponse, MemberStatus, fetch_node_status, from_api_response, unknown, is_capable,
}
use area.Ha.Node.{Ha, quorum_commit_mode_is_active}
use area.Ha.Race.{
  Tally, is_name, voting_set, quorum, rivals, former_leader, poll, first_tally, enough, is_eligible,
  wins,
}
use area.Ha.Votes.{
  is_vote, poll-quorum_votes, names, contains-names, contains-names-keep, IsDistinct-keep,
  length-keep-map,
}

fetch-member :
    (request : Member → Option ApiResponse) (m : Member) → (fetch_node_status request m).member ≡ m
unfolding fetch_node_status from_api_response unknown
fetch-member request m = go (request m)
  where
    go :
        (r : Option ApiResponse)
        → (elim r as (λ _. MemberStatus) [
          | none ↦ unknown m
          | some json ↦ from_api_response m json
        ]).member
          ≡ m
    go none = refl
    go (some json) = refl

pub is_vote-parts :
    {Version : Type 0} (ha : Ha Version) (st : MemberStatus)
    → is_vote ha st ≡ true
    → (is_capable st ≡ true)
      × ((st.wal_position ≤ℤ ha.node.last_operation)
          × (ltb_ℤ (pos 0) st.wal_position ≡ true)
          × (contains st.member.name (voting_set ha) ≡ true))
is_vote-parts ha st h = (ground arith, (ground arith, ground arith, ground arith))

module _ {Version : Type 0} (ha : Ha Version) (request : Member → Option ApiResponse)
    (candidates : List Member) where
  abbrev pub fetch : Member → MemberStatus
  fetch = fetch_node_status request

  abbrev pub voting : List Text
  voting = names (keep (λ m. is_vote ha (fetch m)) (rivals ha candidates))

  -- This node, if it may vote, and the nodes that voted for it.
  abbrev pub promoters : CaseInsensitiveSet
  promoters = if contains ha.node.name (voting_set ha) then ha.node.name ∷ voting else voting

  -- The loop came to its end, and its tally was enough.
  pub wins-parts :
      (check_replication_lag : Bool) (leader : Option (Leader Version))
      → wins ha request candidates check_replication_lag leader ≡ true
      → (t : Tally) × (poll ha
            (former_leader ha leader)
            (map fetch (rivals ha candidates))
            (first_tally ha)
          ≡ some t)
        × (enough ha t ≡ true)
  unfolding wins
  wins-parts check leader h = elim (Bool-cases (is_eligible ha check)) [
    | inl e ↦ polled (rw e at h)
    | inr e ↦ absurd (false_true (rw e at h))
  ]
    where
      false_true : false ≡ true → ⊥
      false_true k = cc

      polled :
          elim (poll ha
              (former_leader ha leader)
              (map fetch (rivals ha candidates))
              (first_tally ha)) [ none ↦ false | some tally ↦ enough ha tally ]
            ≡ true
          → (t : Tally) × (poll ha
                (former_leader ha leader)
                (map fetch (rivals ha candidates))
                (first_tally ha)
              ≡ some t)
            × (enough ha t ≡ true)
      polled k =
          elim (Option-cases (
            poll ha (former_leader ha leader) (map fetch (rivals ha candidates))
              (first_tally ha))) [
                | inl e ↦ absurd (false_true (rw e at k))
                | inr (t, e) ↦ (t, e, rw e at k)
              ]

  abbrev count_of : Bool → ℤ
  count_of b = if b then pos 0 else negsuc 0

  -- The nodes that vote, this one included, are one more than the votes.
  count-promoters :
      (own : Bool) (n : ℕ) → count_of own +ℤ pos n +ℤ pos 1 ≡ pos (if own then suc n else n)
  count-promoters true n = eq_of_parts (pos 0 +ℤ pos n +ℤ pos 1) (pos (suc n)) (omega int_laws)
  count-promoters false n = eq_of_parts (negsuc 0 +ℤ pos n +ℤ pos 1) (pos n) (omega int_laws)

  pub length-promoters :
      (leader_name : Option Text) (t : Tally)
      → poll ha leader_name (map fetch (rivals ha candidates)) (first_tally ha) ≡ some t
      → t.quorum_votes +ℤ pos 1 ≡ pos (length promoters)
  unfolding first_tally
  length-promoters leader_name t h =
      ap (λ q. q +ℤ pos 1)
        (poll-quorum_votes ha leader_name (map fetch (rivals ha candidates)) (first_tally ha) h)
      ∙ ap (λ n. count_of own +ℤ pos n +ℤ pos 1)
          (length-keep-map (is_vote ha) fetch (rivals ha candidates))
      ∙ count-promoters own (length voting)
      ∙ sized own
    where
      own : Bool
      own = contains ha.node.name (voting_set ha)

      sized :
          (b : Bool)
          → pos (if b then suc (length voting) else length voting)
            ≡ pos (length (if b then ha.node.name ∷ voting else voting))
      sized true = refl
      sized false = refl

  pub promoters-IsDistinct :
      IsDistinct (ha.node.name ∷ names (rivals ha candidates)) → IsDistinct promoters
  promoters-IsDistinct d = go (contains ha.node.name (voting_set ha))
    where
      go : (b : Bool) → IsDistinct (if b then ha.node.name ∷ voting else voting)
      go true = (
        contains-names-keep (λ m. is_vote ha (fetch m)) (rivals ha candidates) ha.node.name d.0,
        IsDistinct-keep (λ m. is_vote ha (fetch m)) (rivals ha candidates) d.1,
      )
      go false = IsDistinct-keep (λ m. is_vote ha (fetch m)) (rivals ha candidates) d.1

  voting-is_voter : (x : Text) → contains x voting ≡ true → contains x (voting_set ha) ≡ true
  voting-is_voter x h =
      let (m, k, v) = contains-names (λ m. is_vote ha (fetch m)) (rivals ha candidates) x h in
      contains-congr x m.name (voting_set ha) k ∙ fetched m v
    where
      fetched : (m : Member) → is_vote ha (fetch m) ≡ true → contains m.name (voting_set ha) ≡ true
      fetched m v =
          let (_, w) = is_vote-parts ha (fetch m) v in
          subst (λ (n : Member). contains n.name (voting_set ha) ≡ true) (fetch-member request m)
            w.2

  pub promoters-is_voter :
      (x : Text) → contains x promoters ≡ true → contains x (voting_set ha) ≡ true
  promoters-is_voter x h = elim (Bool-cases (contains ha.node.name (voting_set ha))) [
    | inl e ↦ elim (Bool-cases (same_key x ha.node.name)) [
      | inl k ↦ contains-congr x ha.node.name (voting_set ha) k ∙ e
      | inr k ↦ voting-is_voter x (rw (e, k) at h)
    ]
    | inr e ↦ voting-is_voter x (rw e at h)
  ]

  -- The key has a leader if quorum commit is active.
  active-is_set : quorum_commit_mode_is_active ha ≡ true → is_set ha.cluster.sync.leader ≡ true
  unfolding quorum_commit_mode_is_active is_empty_state
  active-is_set h = ground arith

  pub contains-voting_set :
      (x : Text)
      → quorum_commit_mode_is_active ha ≡ true
      → contains x (voting_set ha)
        ≡ contains x (
            union
              (of_values (voters ha.cluster.sync))
              (singleton (or_empty ha.cluster.sync.leader)))
  unfolding voting_set
  contains-voting_set x a =
      rw a (contains-of_values x (members ha.cluster.sync))
      ∙ ap (contains x) (members-eq ha.cluster.sync (active-is_set a))
      ∙ swapped (same_key x (or_empty ha.cluster.sync.leader)) (contains x (voters ha.cluster.sync))
      ∙ sym (
          contains-union x (of_values (voters ha.cluster.sync))
            (singleton (or_empty ha.cluster.sync.leader))
          ∙ both)
    where
      swapped : (a b : Bool) → (a || b) ≡ (b || (a || false))
      swapped a b = ground arith

      both :
          (contains x (of_values (voters ha.cluster.sync))
            || contains x (singleton (or_empty ha.cluster.sync.leader)))
          ≡ (contains x (voters ha.cluster.sync)
              || (same_key x (or_empty ha.cluster.sync.leader) || false))
      both = rw (
        contains-of_values x (voters ha.cluster.sync),
        contains-of_values x (or_empty ha.cluster.sync.leader ∷ []),
      )

  enough-le :
      (t : Tally)
      → quorum_commit_mode_is_active ha ≡ true
      → is_name ha.cluster.sync.leader ha.node.name ≡ false
      → enough ha t ≡ true
      → leb_ℤ ha.cluster.sync.quorum t.quorum_votes ≡ true
  unfolding enough quorum
  enough-le t a l e = ground arith

  -- Unless this node is the former leader, the votes exceed the quorum.
  pub promoters-exceed :
      (t : Tally)
      → quorum_commit_mode_is_active ha ≡ true
      → is_name ha.cluster.sync.leader ha.node.name ≡ false
      → enough ha t ≡ true
      → t.quorum_votes +ℤ pos 1 ≡ pos (length promoters)
      → ha.cluster.sync.quorum <ℤ pos (length promoters)
  promoters-exceed t a l e p =
      subst (λ z. ha.cluster.sync.quorum <ℤ z) p (one_more ha.cluster.sync.quorum t.quorum_votes le)
    where
      one_more : (q v : ℤ) → leb_ℤ q v ≡ true → q <ℤ v +ℤ pos 1
      one_more q v h = omega (int_laws, leb_ℤ→≤ℤ q v h)

      le : leb_ℤ ha.cluster.sync.quorum t.quorum_votes ≡ true
      le = enough-le t a l e
