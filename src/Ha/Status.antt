-- ===== src/Ha/Status.antt =====
-- `_MemberStatus`: what a node answers about itself during the leader race.
use area.Common.{
  ℤ, pos, max_ℤ, Bool, true, false, not, ◌||◌, Option, none, some, [], ◌∷◌, some_of, Text, codes,
  eq_text, if◌then◌else◌,
}
use area.Tags.{Tags, nofailover}
use area.Cluster.Member.{Member}

-- The JSON document of the answer, with 0 for a number that is missing. `location` is its truth value.
pub record ApiResponse : Type 0 where
  pub location : Bool
  pub received_location : ℤ
  pub replayed_location : ℤ
  pub role : Text
  pub tags : Tags
  pub timeline : ℤ
  pub watchdog_failed : Bool

pub record MemberStatus : Type 0 where
  pub member : Member
  pub reachable : Bool
  pub in_recovery : Option Bool
  pub wal_position : ℤ
  pub tags : Tags
  pub timeline : ℤ
  pub watchdog_failed : Bool

unfoldable pub from_api_response : Member → ApiResponse → MemberStatus
from_api_response member json =
    let in_recovery =
      not (json.location || some_of (eq_text json.role) (codes "master" ∷ codes "primary" ∷ [])) in
    record {
      member = member;
      reachable = true;
      in_recovery = some in_recovery;
      wal_position =
          if in_recovery then max_ℤ json.received_location json.replayed_location else pos 0;
      tags = json.tags;
      timeline = json.timeline;
      watchdog_failed = json.watchdog_failed;
    }

unfoldable pub unknown : Member → MemberStatus
unknown member = record {
  member = member;
  reachable = false;
  in_recovery = none;
  wal_position = pos 0;
  tags = [];
  timeline = pos 0;
  watchdog_failed = false;
}

-- `fetch_node_status`; the answer is none where the request fails or is no document of that kind.
unfoldable pub fetch_node_status : (Member → Option ApiResponse) → Member → MemberStatus
fetch_node_status request member = elim (request member) [
  | none ↦ unknown member
  | some json ↦ from_api_response member json
]

-- The reasons of `failover_limitation`.
pub data Limitation : Type 0 where
  not_reachable not_allowed_to_promote not_watchdog_capable : Limitation

unfoldable pub failover_limitation : MemberStatus → Option Limitation
failover_limitation st =
    if not st.reachable
    then some not_reachable
    else if nofailover st.tags
    then some not_allowed_to_promote
    else if st.watchdog_failed
    then some not_watchdog_capable
    else none

-- `failover_limitation() is None`
unfoldable pub is_capable : MemberStatus → Bool
unfolding failover_limitation
is_capable st = elim (failover_limitation st) [ none ↦ true | some _ ↦ false ]
