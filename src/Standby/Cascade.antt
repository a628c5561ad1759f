-- ===== src/Standby/Cascade.antt =====
-- Whether `_should_cascade` returns.
use area.Common.{
  ℕ, zero, suc, ◌<◌, ◌≡◌, refl, arith, Bool, true, false, Option, none, some, if◌then◌else◌,
}
use area.Dictionary.{CaseInsensitiveDict, get_item}
use area.Tags.{replicatefrom}
use area.Sync.State.{is_set, or_empty}
use area.Cluster.Member.{Member}
use area.Standby.Replicas.{Row, is_some, should_cascade}

-- `other` is the member that `member` replicates from.
abbrev pub Upstream : CaseInsensitiveDict Member → Member → Member → Type 0
Upstream members member other =
    (is_set (replicatefrom member.tags) ≡ true)
    × (get_item members (or_empty (replicatefrom member.tags)) ≡ some other)

module _ (members : CaseInsensitiveDict Member) (replication : CaseInsensitiveDict Row) where
  -- If each member that replicates from another has a higher rank than it, and there are more frames
  -- than the rank, then `_should_cascade` returns.
  pub should_cascade-returns :
      (rank : Member → ℕ)
      → ((m n : Member) → Upstream members m n → rank n < rank m)
      → (frames : ℕ) (m : Member) → rank m < frames
      → (b : Bool) × (should_cascade frames members replication m ≡ some b)
  unfolding should_cascade
  should_cascade-returns rank down zero m l = absurd (omega arith)
  should_cascade-returns rank down (suc frames) m l =
      by_case (is_set (replicatefrom m.tags)) (get_item members (or_empty (replicatefrom m.tags)))
        refl refl (λ n k. should_cascade-returns rank down frames n k)
    where
      Returns : Option Bool → Type 0
      Returns r = (b : Bool) × (r ≡ some b)

      cascades : Member → Option Bool
      cascades other =
          if is_set (replicatefrom other.tags)
          then should_cascade frames members replication other
          else some (is_some (get_item replication other.name))

      if_cascades :
          (b : Bool) (n : Member)
          → Returns (should_cascade frames members replication n)
          → Returns (
              if b
              then should_cascade frames members replication n
              else some (is_some (get_item replication n.name)))
      if_cascades true n r = r
      if_cascades false n r = (is_some (get_item replication n.name), refl)

      by_case :
          (b : Bool) (o : Option Member)
          → is_set (replicatefrom m.tags) ≡ b
          → get_item members (or_empty (replicatefrom m.tags)) ≡ o
          → ((n : Member) → rank n < frames → Returns (should_cascade frames members replication n))
          → Returns (
              if b
              then elim o as (λ _. Option Bool) [ none ↦ some false | some other ↦ cascades other ]
              else some false)
      by_case false o e f ih = (false, refl)
      by_case true none e f ih = (false, refl)
      by_case true (some n) e f ih =
          if_cascades (is_set (replicatefrom n.tags)) n (ih n (omega (arith, down m n (e, f))))

  -- If two members replicate from each other, it ends in a RecursionError, however large the stack is.
  pub should_cascade-cycle :
      (frames : ℕ) (m n : Member)
      → Upstream members m n
      → Upstream members n m
      → should_cascade frames members replication m ≡ none
  unfolding should_cascade
  should_cascade-cycle zero m n (a, b) (c, d) = refl
  should_cascade-cycle (suc frames) m n (a, b) (c, d) =
      rw (a, b, c) (should_cascade-cycle frames n m (c, d) (a, b))
