-- ===== src/Quorum/Guarantee.antt =====
-- When the check of the resolver passes: the nodes fit into a set that is small enough.
use area.Common.{
  ℤ, pos, ◌+ℤ◌, ◌-ℤ◌, ◌≤ℤ◌, leb_ℤ, eqb_ℤ, eqb_ℤ→parts, int_laws, ◌≡◌, sym, ◌∙◌, true, ◌&&◌, ◌||◌,
  not, List, [], ◌∷◌, Text, length, arith, and-eq-true,
}
use area.Collections.{
  CaseInsensitiveSet, same_key, contains, of_values, union, diff, issubset, eq_set, len,
}
use area.Collections.Laws.{contains-of_values, contains-union, contains-diff}
use area.Collections.Size.{
  IsDistinct, Includes, Includes-of_forall, contains_of_Includes, length-le_of_Includes,
  of_values-IsDistinct, union-IsDistinct,
}
use area.Quorum.Resolver.{Resolver, overlap_guaranteed, invariants_hold, singleton}
use area.Quorum.Steps.{failover_voters}
use area.Quorum.Overlap.{all_nodes, contains-all_nodes, ≤ℤ→leb_ℤ}

-- A set made of values is a subset of whatever has its members.
issubset_of_forall :
    (vs b : List Text)
    → ((x : Text) → contains x (of_values vs) ≡ true → contains x b ≡ true)
    → issubset (of_values vs) b ≡ true
unfolding issubset
issubset_of_forall vs b h =
    let inside : Includes b (of_values vs) = Includes-of_forall b (of_values vs) h in
    ground (arith, inside, length-le_of_Includes (of_values vs) b (of_values-IsDistinct vs) inside)

pub contains_of_issubset :
    (x : Text) (a b : CaseInsensitiveSet)
    → issubset a b ≡ true
    → contains x a ≡ true
    → contains x b ≡ true
unfolding issubset
contains_of_issubset x a b h e = contains_of_Includes b a x (and-eq-true _ _ h).1 e

subset_of_members :
    (a b : CaseInsensitiveSet)
    → ((x : Text) → contains x a ≡ true → contains x b ≡ true)
    → issubset (of_values a) (of_values b) ≡ true
subset_of_members a b h =
    issubset_of_forall a (of_values b)
      λ x e. contains-of_values x b ∙ h x (sym (contains-of_values x a) ∙ e)

all_nodes-IsDistinct :
    (leader : Text) (voters sync : CaseInsensitiveSet) (leader_wanted : Text)
    → IsDistinct (all_nodes leader voters sync leader_wanted)
all_nodes-IsDistinct leader voters sync leader_wanted = union-IsDistinct _ _

module _ (leader : Text) (quorum : ℤ) (voters : CaseInsensitiveSet) (numsync : ℤ)
    (sync : CaseInsensitiveSet) (leader_wanted : Text) (cover : CaseInsensitiveSet)
    (covers : (x : Text)
      → contains x (all_nodes leader voters sync leader_wanted) ≡ true
      → contains x cover ≡ true)
    (fits : len cover ≤ℤ quorum +ℤ numsync +ℤ pos 1) where
  size_fits :
      leb_ℤ (len (all_nodes leader voters sync leader_wanted)) (quorum +ℤ numsync +ℤ pos 1) ≡ true
  size_fits =
      ≤ℤ→leb_ℤ (len (all_nodes leader voters sync leader_wanted)) (quorum +ℤ numsync +ℤ pos 1) (
        omega (
          arith,
          length-le_of_Includes (all_nodes leader voters sync leader_wanted) cover
              (all_nodes-IsDistinct leader voters sync leader_wanted)
              (Includes-of_forall cover (all_nodes leader voters sync leader_wanted) covers),
        ))

  -- The voters are within the synchronous nodes.
  pub guaranteed_of_voters :
      ((x : Text)
        → contains x (union voters (singleton leader)) ≡ true
        → contains x (union sync (singleton leader_wanted)) ≡ true)
      → overlap_guaranteed leader quorum voters numsync sync leader_wanted ≡ true
  unfolding overlap_guaranteed
  guaranteed_of_voters h = ground (
    arith,
    size_fits,
    subset_of_members (union voters (singleton leader)) (union sync (singleton leader_wanted)) h,
  )

  -- The synchronous nodes are within the voters.
  pub guaranteed_of_sync :
      ((x : Text)
        → contains x (union sync (singleton leader_wanted)) ≡ true
        → contains x (union voters (singleton leader)) ≡ true)
      → overlap_guaranteed leader quorum voters numsync sync leader_wanted ≡ true
  unfolding overlap_guaranteed
  guaranteed_of_sync h = ground (
    arith,
    size_fits,
    subset_of_members (union sync (singleton leader_wanted)) (union voters (singleton leader)) h,
  )

pub contains-singleton : (x v : Text) → contains x (singleton v) ≡ same_key x v
contains-singleton x v = ground (arith, contains-of_values x (v ∷ []))

-- Membership in the voters after a failover, and in the nodes around them.
contains-failover_voters :
    (x : Text) (self : Resolver)
    → contains x (failover_voters self) ≡ (
        contains x self.voters && not (contains x (singleton self.leader_wanted))
        || contains x (singleton self.leader))
contains-failover_voters x self = ground (
  arith,
  contains-union x (diff self.voters (singleton self.leader_wanted)) (singleton self.leader),
  contains-diff x self.voters (singleton self.leader_wanted),
)

-- With an empty `synchronous_standby_names` a failover lists all voters, and the check passes.
pub failover_guaranteed :
    (self : Resolver)
    → invariants_hold (record self {
      numsync = len (failover_voters self) -ℤ self.quorum;
      sync = of_values (failover_voters self);
    })
      ≡ true
unfolding invariants_hold
failover_guaranteed self =
    guaranteed_of_voters self.leader self.quorum self.voters (len voters -ℤ self.quorum)
      (of_values voters) self.leader_wanted (self.leader_wanted ∷ voters)
      (λ x e. ground (
        arith,
        contains-all_nodes x self.leader self.voters (of_values voters) self.leader_wanted,
        contains-of_values x voters,
        members x,
        around x,
      ))
      (omega int_laws) (λ x e. ground (arith, members x, around x))
  where
    voters : CaseInsensitiveSet
    voters = failover_voters self

    members :
        (x : Text)
        → contains x (of_values voters) ≡ (
            contains x self.voters && not (same_key x self.leader_wanted) || same_key x self.leader)
    members x = ground (
      arith,
      contains-of_values x voters,
      contains-failover_voters x self,
      contains-singleton x self.leader,
      contains-singleton x self.leader_wanted,
    )

    around :
        (x : Text)
        → (contains x (union self.voters (singleton self.leader))
            ≡ (contains x self.voters || same_key x self.leader))
          × (contains x (union (of_values voters) (singleton self.leader_wanted))
              ≡ (contains x (of_values voters) || same_key x self.leader_wanted))
    around x = (
      ground (
        arith,
        contains-union x self.voters (singleton self.leader),
        contains-singleton x self.leader,
      ),
      ground (
        arith,
        contains-union x (of_values voters) (singleton self.leader_wanted),
        contains-singleton x self.leader_wanted,
      ),
    )

-- If the reset of the quorum changes nothing the check passes.
pub reset_guaranteed :
    (self : Resolver) (extra : ℤ)
    → self.leader ≡ self.leader_wanted
    → pos 0 ≤ℤ extra
    → eqb_ℤ (len self.sync -ℤ self.numsync +ℤ extra) self.quorum ≡ true
    → eq_set self.sync self.voters ≡ true
    → invariants_hold self ≡ true
unfolding invariants_hold eq_set
reset_guaranteed self extra led nonneg same_quorum same_voters =
    guaranteed_of_sync self.leader self.quorum self.voters self.numsync self.sync self.leader_wanted
      (self.leader_wanted ∷ self.voters)
      (λ x e. ground (
        arith,
        contains-all_nodes x self.leader self.voters self.sync self.leader_wanted,
        around x,
        inside x,
        led,
      ))
      (omega (
        int_laws,
        sizes,
        eqb_ℤ→parts (len self.sync -ℤ self.numsync +ℤ extra) self.quorum same_quorum,
      ))
      (λ x e. ground (arith, around x, inside x))
  where
    subset : issubset self.sync self.voters ≡ true
    subset = ground arith

    sizes : length self.sync ≡ length self.voters
    sizes = ground arith

    inside : (x : Text) → contains x self.sync ≡ true → contains x self.voters ≡ true
    inside x = contains_of_issubset x self.sync self.voters subset

    around :
        (x : Text)
        → (contains x (union self.voters (singleton self.leader))
            ≡ (contains x self.voters || same_key x self.leader_wanted))
          × (contains x (union self.sync (singleton self.leader_wanted))
              ≡ (contains x self.sync || same_key x self.leader_wanted))
    around x = (
      rw led (
          ground (
            arith,
            contains-union x self.voters (singleton self.leader_wanted),
            contains-singleton x self.leader_wanted,
          )),
      ground (
        arith,
        contains-union x self.sync (singleton self.leader_wanted),
        contains-singleton x self.leader_wanted,
      ),
    )
