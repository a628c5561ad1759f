-- ===== src/Quorum/Overlap.antt =====
-- What `check_invariants` guarantees: nodes that acknowledge a commit and nodes that elect a leader
-- have one in common.
use area.Common.{
  ℤ, pos, ◌+ℤ◌, ◌≤ℤ◌, ◌<ℤ◌, leb_ℤ, int_laws, ◌+◌, ◌<◌, ◌≡◌, true, ◌||◌, Text, length, is_empty,
  arith, Bool-cases, inl, inr,
}
use area.Collections.{CaseInsensitiveSet, contains, of_values, union, len}
use area.Collections.Laws.{contains-of_values, contains-union}
use area.Collections.Size.{
  IsDistinct, Includes, Includes-of_forall, contains_of_Includes, pigeonhole,
}
use area.Quorum.Resolver.{overlap_guaranteed, singleton, nonempty}

pub leb_ℤ→≤ℤ : (a b : ℤ) → leb_ℤ a b ≡ true → a ≤ℤ b
leb_ℤ→≤ℤ a b h = ground arith

pub ≤ℤ→leb_ℤ : (a b : ℤ) → a ≤ℤ b → leb_ℤ a b ≡ true
≤ℤ→leb_ℤ a b h = ground arith

-- A set that the union of the other two covers.
Includes-union :
    (a b c d : CaseInsensitiveSet)
    → Includes (union a b) c
    → ((x : Text) → contains x (union a b) ≡ true → contains x d ≡ true)
    → Includes d c
Includes-union a b c d h k =
    Includes-of_forall d c λ x e. k x (contains_of_Includes (union a b) c x h e)

-- The nodes that the size test counts.
abbrev pub all_nodes : Text → CaseInsensitiveSet → CaseInsensitiveSet → Text → CaseInsensitiveSet
all_nodes leader voters sync leader_wanted =
    union (of_values (union voters (singleton leader)))
      (of_values (union sync (singleton leader_wanted)))

pub contains-all_nodes :
    (x : Text) (leader : Text) (voters sync : CaseInsensitiveSet) (leader_wanted : Text)
    → contains x (all_nodes leader voters sync leader_wanted) ≡ (
        contains x (union voters (singleton leader))
        || contains x (union sync (singleton leader_wanted)))
contains-all_nodes x leader voters sync leader_wanted = ground (
  arith,
  contains-union x (of_values (union voters (singleton leader)))
      (of_values (union sync (singleton leader_wanted))),
  contains-of_values x (union voters (singleton leader)),
  contains-of_values x (union sync (singleton leader_wanted)),
)

size_bound :
    (quorum numsync : ℤ) (nodes acks promoters : CaseInsensitiveSet)
    → leb_ℤ (len nodes) (quorum +ℤ numsync +ℤ pos 1) ≡ true
    → numsync <ℤ len acks
    → quorum <ℤ len promoters
    → length nodes < length acks + length promoters
size_bound quorum numsync nodes acks promoters h ha hp =
    omega (int_laws, leb_ℤ→≤ℤ (len nodes) (quorum +ℤ numsync +ℤ pos 1) h)

-- If there are voters and the check passes, `acks` are distinct nodes out of the wanted leader and
-- the listed standbys, more than `numsync` of them, and `promoters` are distinct nodes out of the
-- voters and the leader of the /sync key, more than `quorum` of them, then some node is in both.
pub overlap :
    (leader : Text) (quorum : ℤ) (voters : CaseInsensitiveSet) (numsync : ℤ)
    (sync : CaseInsensitiveSet) (leader_wanted : Text) (acks promoters : CaseInsensitiveSet)
    → nonempty voters ≡ true
    → overlap_guaranteed leader quorum voters numsync sync leader_wanted ≡ true
    → IsDistinct acks
    → IsDistinct promoters
    → Includes (union sync (singleton leader_wanted)) acks
    → Includes (union voters (singleton leader)) promoters
    → numsync <ℤ len acks
    → quorum <ℤ len promoters
    → (x : Text) × (contains x acks ≡ true) × (contains x promoters ≡ true)
unfolding overlap_guaranteed
overlap leader quorum voters numsync sync leader_wanted acks promoters some_voter check da dp ha hp
      na np =
    pigeonhole nodes acks promoters da dp
      (Includes-union sync (singleton leader_wanted) acks nodes ha
        (λ x e. ground (arith, contains-all_nodes x leader voters sync leader_wanted)))
      (Includes-union voters (singleton leader) promoters nodes hp
        (λ x e. ground (arith, contains-all_nodes x leader voters sync leader_wanted)))
      (size_bound quorum numsync nodes acks promoters counted na np)
  where
    nodes : CaseInsensitiveSet
    nodes = all_nodes leader voters sync leader_wanted

    counted : leb_ℤ (len nodes) (quorum +ℤ numsync +ℤ pos 1) ≡ true
    counted = elim (Bool-cases (is_empty voters)) [
      | inl e ↦ absurd (ground arith)
      | inr e ↦ ground arith
    ]
