-- ===== src/Ha/Promotion.antt =====
-- A promotion in quorum commit mode keeps the overlap between the /sync key and the names in force.
use area.Common.{
  ◌≤◌, ℤ, pos, ◌+ℤ◌, ◌-ℤ◌, leb_ℤ, int_laws, ◌≡◌, ◌∙◌, sym, arith, Bool, true, false, not, ◌||◌,
  List, [], ◌∷◌, length, Text, if◌then◌else◌,
}
use area.Collections.{
  CaseInsensitiveSet, contains, of_values, union, discard, issubset, len, same_key,
}
use area.Collections.Laws.{
  contains-of_values, contains-union, contains-discard, contains-congr, same_key_symm,
}
use area.Collections.Size.{
  IsDistinct, Includes, Includes-of_forall, of_values-IsDistinct, union-IsDistinct,
  length-le_of_Includes,
}
use area.Quorum.Resolver.{overlap_guaranteed, singleton}
use area.Quorum.Overlap.{≤ℤ→leb_ℤ, all_nodes, contains-all_nodes}
use area.Sync.State.{is_set, is_empty_state, or_empty, voters}
use area.Sync.Written.{members-eq}
use area.Ha.Node.{Ha, quorum_commit_mode_is_active}
use area.Ha.Prepromote.{names_before_promote}

issubset-of_Includes :
    (a b : CaseInsensitiveSet) → IsDistinct a → Includes b a → issubset a b ≡ true
unfolding issubset
issubset-of_Includes a b d h = ground (arith, length-le_of_Includes a b d h, h)

-- The leader and the voters.
contains-members :
    (x leader : Text) (vs : List Text)
    → contains x (of_values (union (of_values vs) (singleton leader)))
      ≡ contains x (of_values (leader ∷ vs))
contains-members x leader vs = ground (
  arith,
  contains-of_values x (union (of_values vs) (singleton leader)),
  contains-union x (of_values vs) (singleton leader),
  contains-of_values x vs,
  contains-of_values x (leader ∷ vs),
  contains-of_values x (leader ∷ []),
)

-- The names that are set, with the new leader, are the members and the new leader.
module _ (name : Text) (m : CaseInsensitiveSet) where
  abbrev kept_names : CaseInsensitiveSet
  kept_names = if not (contains name m) then m else discard m name

  contains-kept_names :
      (x : Text)
      → contains x (of_values (union kept_names (singleton name)))
        ≡ (contains x m || same_key x name)
  contains-kept_names x =
      contains-of_values x (union kept_names (singleton name))
      ∙ contains-union x kept_names (singleton name)
      ∙ ground (
        arith,
        contains-of_values x (name ∷ []),
        contains-discard x name m,
        same_key_symm x name,
        contains-congr x name m,
      )

  -- The members, and the new leader if it is none of them.
  abbrev counted : CaseInsensitiveSet
  counted = if not (contains name m) then name ∷ m else m

  contains-counted : (x : Text) → contains x counted ≡ (contains x m || same_key x name)
  contains-counted x = ground (arith, contains-congr x name m)

module _ (leader name : Text) (vs : List Text) (quorum : ℤ) where
  abbrev everyone : CaseInsensitiveSet
  everyone = of_values (leader ∷ vs)

  within :
      (x : Text)
      → (contains x (union (of_values vs) (singleton leader))
          || contains x (union (kept_names name everyone) (singleton name)))
        ≡ true
      → (contains x everyone || same_key x name) ≡ true
  within x e = ground (
    arith,
    contains-members x leader vs,
    contains-kept_names name everyone x,
    contains-of_values x (union (of_values vs) (singleton leader)),
    contains-of_values x (union (kept_names name everyone) (singleton name)),
  )

  small :
      length (all_nodes leader (of_values vs) (kept_names name everyone) name)
      ≤ length (counted name everyone)
  small =
      length-le_of_Includes (all_nodes leader (of_values vs) (kept_names name everyone) name)
        (counted name everyone) (union-IsDistinct _ _)
        (Includes-of_forall (counted name everyone) _ λ x e.
          contains-counted name everyone x
          ∙ within x (
              sym (contains-all_nodes x leader (of_values vs) (kept_names name everyone) name) ∙ e))

  all_sync-Includes :
      Includes
        (of_values (union (kept_names name everyone) (singleton name)))
        (of_values (union (of_values vs) (singleton leader)))
  all_sync-Includes =
      Includes-of_forall _ (of_values (union (of_values vs) (singleton leader))) λ x e.
        contains-kept_names name everyone x ∙ ground (arith, sym (contains-members x leader vs) ∙ e)

  enough_of :
      (sync : CaseInsensitiveSet) (numsync : ℤ)
      → leb_ℤ (len (all_nodes leader (of_values vs) sync name)) (quorum +ℤ numsync +ℤ pos 1) ≡ true
      → issubset
          (of_values (union (of_values vs) (singleton leader)))
          (of_values (union sync (singleton name)))
        ≡ true
      → overlap_guaranteed leader quorum (of_values vs) numsync sync name ≡ true
  unfolding overlap_guaranteed
  enough_of sync numsync h k = ground arith

  abbrev placed_if : Bool → CaseInsensitiveSet × ℤ
  placed_if b =
      if not b
      then (everyone, len everyone -ℤ quorum -ℤ pos 1 +ℤ pos 1)
      else (discard everyone name, len everyone -ℤ quorum -ℤ pos 1)

  placed_if-overlap_guaranteed :
      (b : Bool)
      → length
          (all_nodes leader (of_values vs) (if not b then everyone else discard everyone name) name)
        ≤ length (if not b then name ∷ everyone else everyone)
      → Includes
          (of_values (union (if not b then everyone else discard everyone name) (singleton name)))
          (of_values (union (of_values vs) (singleton leader)))
      → overlap_guaranteed leader quorum (of_values vs) (placed_if b).1 (placed_if b).0 name ≡ true
  placed_if-overlap_guaranteed true l i =
      enough_of (discard everyone name) (len everyone -ℤ quorum -ℤ pos 1)
        (≤ℤ→leb_ℤ (len (all_nodes leader (of_values vs) (discard everyone name) name))
          (quorum +ℤ (len everyone -ℤ quorum -ℤ pos 1) +ℤ pos 1) (omega int_laws))
        (issubset-of_Includes _ _ (of_values-IsDistinct _) i)
  placed_if-overlap_guaranteed false l i =
      enough_of everyone (len everyone -ℤ quorum -ℤ pos 1 +ℤ pos 1)
        (≤ℤ→leb_ℤ (len (all_nodes leader (of_values vs) everyone name))
          (quorum +ℤ (len everyone -ℤ quorum -ℤ pos 1 +ℤ pos 1) +ℤ pos 1) (omega int_laws))
        (issubset-of_Includes _ _ (of_values-IsDistinct _) i)

leader_is_set :
    {Version : Type 0} (ha : Ha Version)
    → quorum_commit_mode_is_active ha ≡ true
    → is_set ha.cluster.sync.leader ≡ true
unfolding quorum_commit_mode_is_active is_empty_state
leader_is_set ha h = ground arith

-- In active quorum commit mode, what a new leader sets before its promotion overlaps with the /sync key
-- that it leaves as it is, whether or not it is one of the voters.
pub names_before_promote-overlap_guaranteed :
    {Version : Type 0} (ha : Ha Version) (min_sync : ℤ)
    → quorum_commit_mode_is_active ha ≡ true
    → overlap_guaranteed
        (or_empty ha.cluster.sync.leader)
        ha.cluster.sync.quorum
        (of_values (voters ha.cluster.sync))
        (names_before_promote ha min_sync).1
        (names_before_promote ha min_sync).0
        ha.node.name
      ≡ true
unfolding names_before_promote
names_before_promote-overlap_guaranteed {Version} ha min_sync a =
    rw (a, members-eq ha.cluster.sync (leader_is_set ha a))
      (placed_if-overlap_guaranteed (or_empty ha.cluster.sync.leader) ha.node.name
        (voters ha.cluster.sync) ha.cluster.sync.quorum
        (contains ha.node.name
          (of_values (or_empty ha.cluster.sync.leader ∷ voters ha.cluster.sync)))
        (small (or_empty ha.cluster.sync.leader) ha.node.name (voters ha.cluster.sync)
          ha.cluster.sync.quorum)
        (all_sync-Includes (or_empty ha.cluster.sync.leader) ha.node.name (voters ha.cluster.sync)
          ha.cluster.sync.quorum))
