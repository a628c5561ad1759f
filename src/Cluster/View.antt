-- ===== src/Cluster/View.antt =====
-- `Cluster` and the keys it holds, as they are after reading.
use area.Common.{
  ℤ, pos, ◌+ℤ◌, eqb_ℤ, ℕ, ◌+◌, ◌==◌, Bool, true, false, not, ◌&&◌, Option, none, some, List, [],
  ◌∷◌, keep, some_of, is_empty, Text, eq_text, if◌then◌else◌,
}
use area.Sync.State.{SyncState, is_set, empty}
use area.Cluster.Member.{Member, Leader, clonefrom, is_running}

-- `scheduled_at` is the time in seconds.
pub record Failover (Version : Type 0) : Type 0 where
  pub version : Version
  pub leader : Option Text
  pub candidate : Option Text
  pub scheduled_at : Option ℤ

-- `int(bool(b))`
abbrev as_int : Bool → ℕ
as_int b = if b then 1 else 0

-- `len(failover)`
unfoldable pub failover_len : {Version : Type 0} → Failover Version → ℕ
failover_len f = as_int (is_set f.leader) + as_int (is_set f.candidate)

-- The truth value of `cluster.failover`.
unfoldable pub has_failover : {Version : Type 0} → Option (Failover Version) → Bool
unfolding failover_len
has_failover none = false
has_failover (some f) = if failover_len f == 0 then false else true

pub record Status : Type 0 where
  pub last_lsn : ℤ
  pub slots : Option (List (Text × ℤ))
  pub retain_slots : List Text

unfoldable pub empty_status : Status
empty_status = record { last_lsn = pos 0; slots = none; retain_slots = [] }

unfoldable pub status_is_empty : Status → Bool
status_is_empty s = eqb_ℤ s.last_lsn (pos 0) && is_none s.slots && is_empty s.retain_slots
  where
    is_none : Option (List (Text × ℤ)) → Bool
    is_none none = true
    is_none (some _) = false

-- `TimelineHistory`: whether the value is the text `[]`, and for each line the number in its first
-- place, if that is a number.
pub record History : Type 0 where
  pub value_is_empty_list : Bool
  pub lines : List (Option ℤ)

pub record Cluster (Version : Type 0) : Type 0 where
  pub initialize : Option Text
  pub leader : Option (Leader Version)
  pub status : Status
  pub members : List Member
  pub failover : Option (Failover Version)
  pub sync : SyncState Version
  pub history : Option History
  pub failsafe : Option (List (Text × Text))

-- `lines[-1]`
unfoldable pub last_line : Option ℤ → List (Option ℤ) → Option ℤ
last_line line [] = line
last_line line (l ∷ ls) = last_line l ls

-- `get_member` without the fallback to the leader.
unfoldable pub get_member : Text → List Member → Option Member
get_member name [] = none
get_member name (m ∷ ms) =
    let rest = get_member name ms in if eq_text m.name name then some m else rest

module _ {Version : Type 0} where
  unfoldable pub empty_cluster : Cluster Version
  empty_cluster = record {
    initialize = none;
    leader = none;
    status = empty_status;
    members = [];
    failover = none;
    sync = empty none;
    history = none;
    failsafe = none;
  }

  unfoldable pub leader_name : Cluster Version → Option Text
  leader_name c = elim c.leader [ none ↦ none | some l ↦ some l.member.name ]

  unfoldable pub is_unlocked : Cluster Version → Bool
  is_unlocked c = not (is_set (leader_name c))

  unfoldable pub has_member : Text → Cluster Version → Bool
  has_member name c = some_of (λ m. eq_text m.name name) c.members

  -- The nodes that `get_clone_member` draws from; it takes the leader where there is none.
  unfoldable pub clone_candidates : Text → Cluster Version → List Member
  clone_candidates exclude_name c =
      let exclude = exclude_name ∷ leader_names (leader_name c) in
      keep (λ m. clonefrom m && is_running m && not (some_of (eq_text m.name) exclude)) c.members
    where
      leader_names : Option Text → List Text
      leader_names none = []
      leader_names (some name) = name ∷ []

  -- The last known timeline; a last line that is no number counts as none.
  unfoldable pub timeline : Cluster Version → ℤ
  timeline c = elim c.history [ none ↦ pos 0 | some h ↦ of_lines h.value_is_empty_list h.lines ]
    where
      next : Option ℤ → ℤ
      next none = pos 0
      next (some n) = n +ℤ pos 1

      of_lines : Bool → List (Option ℤ) → ℤ
      of_lines is_list [] = if is_list then pos 1 else pos 0
      of_lines is_list (l ∷ ls) = next (last_line l ls)
