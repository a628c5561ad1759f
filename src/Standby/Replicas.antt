-- ===== src/Standby/Replicas.antt =====
-- `_ReplicaList`: the connections that may become synchronous, the preferred ones first.
use area.Common.{
  ℕ, zero, suc, ℤ, ltb_ℤ, max_ℤ, eqb_ℤ, Bool, true, false, not, ◌&&◌, ◌||◌, Option, none, some,
  List, [], ◌∷◌, map, keep, Text, codes, eq_text, ltb_text, if◌then◌else◌,
}
use area.Collections.{same_key}
use area.Dictionary.{CaseInsensitiveDict, get_item, update}
use area.Tags.{nosync, nofailover, sync_priority, replicatefrom}
use area.Sync.State.{is_set, or_empty}
use area.Cluster.Member.{Member, is_running}

-- A row of pg_stat_replication.
pub record Row : Type 0 where
  pub pid : ℤ
  pub application_name : Text
  pub sync_state : Text
  pub write_lsn : Option ℤ
  pub flush_lsn : Option ℤ
  pub replay_lsn : Option ℤ

-- What the handler asks of PostgreSQL.
pub record Postgresql : Type 0 where
  pub name : Text
  pub synchronous_commit : Text
  pub synchronous_standby_names : Text
  pub pg_stat_replication : List Row
  pub last_operation : ℤ
  pub supports_multiple_sync : Bool
  pub supports_quorum_commit : Bool

pub record Replica : Type 0 where
  pub pid : ℤ
  pub application_name : Text
  pub sync_state : Text
  pub lsn : ℤ
  pub nofailover : Bool
  pub sync_priority : ℤ

-- `row[sort_col]`
unfoldable pub sort_lsn : Text → Row → Option ℤ
sort_lsn synchronous_commit row =
    if eq_text synchronous_commit (codes "remote_apply")
    then row.replay_lsn
    else if eq_text synchronous_commit (codes "remote_write")
    then row.write_lsn
    else row.flush_lsn

abbrev pub is_some : {A : Type 0} → Option A → Bool
is_some none = false
is_some (some _) = true

module _ {A : Type 0} (name : A → Text) where
  put : A → List A → List A
  put a [] = a ∷ []
  put a (b ∷ bs) = let rest = put a bs in if eq_text (name b) (name a) then a ∷ bs else b ∷ rest

  put_all : List A → List A → List A
  put_all known [] = known
  put_all known (a ∷ as') = put_all (put a known) as'

  -- `CaseInsensitiveDict({name(a): a for a in values})`
  unfoldable pub dict_of : List A → CaseInsensitiveDict A
  unfolding put put_all
  dict_of values = update [] (map (λ a. record { key = name a; value = a }) (put_all [] values))

unfoldable pub eligible_members : Postgresql → List Member → CaseInsensitiveDict Member
unfolding dict_of
eligible_members pg members =
    dict_of (λ m. m.name)
      (keep (λ m. is_running m && not (nosync m.tags) && not (same_key m.name pg.name)) members)

unfoldable pub streaming : Postgresql → CaseInsensitiveDict Member → CaseInsensitiveDict Row
unfolding dict_of
streaming pg members =
    dict_of (λ r. r.application_name)
      (keep
        (λ r.
          is_some (sort_lsn pg.synchronous_commit r)
          && is_some (get_item members r.application_name))
        pg.pg_stat_replication)

-- `_should_cascade` on the frames left of the interpreter's stack; none is the RecursionError.
unfoldable pub should_cascade :
    ℕ → CaseInsensitiveDict Member → CaseInsensitiveDict Row → Member → Option Bool
should_cascade zero members replication member = none
should_cascade (suc frames) members replication member =
    let upstream = get_item members (or_empty (replicatefrom member.tags)) in
    if is_set (replicatefrom member.tags)
    then elim upstream [
      | none ↦ some false
      | some other ↦
          let rest = should_cascade frames members replication other in
          if is_set (replicatefrom other.tags)
          then rest
          else some (is_some (get_item replication other.name))
    ]
    else some false

abbrev replica_of : ℤ → Row → Member → Replica
replica_of lsn row member = record {
  pid = row.pid;
  application_name = row.application_name;
  sync_state = row.sync_state;
  lsn = lsn;
  nofailover = nofailover member.tags;
  sync_priority = sync_priority member.tags;
}

-- The rows that stream and do not cascade.
unfoldable pub replicas :
    ℕ
    → Text
    → CaseInsensitiveDict Member
    → CaseInsensitiveDict Row
    → CaseInsensitiveDict Row
    → Option (List Replica)
unfolding sort_lsn should_cascade
replicas frames commit members replication [] = some []
replicas frames commit members replication (e ∷ es) =
    let rest = replicas frames commit members replication es in
    elim (get_item members e.value.application_name) [
      | none ↦ rest
      | some member ↦ elim (sort_lsn commit e.value) [
        | none ↦ rest
        | some lsn ↦ elim (should_cascade frames members replication member) [
          | none ↦ none
          | some true ↦ rest
          | some false ↦ elim rest [
            | none ↦ none
            | some rs ↦ some (replica_of lsn e.value member ∷ rs)
          ]
        ]
      ]
    ]

-- The order of the keys `(sync_priority, sync_state, lsn)`.
unfoldable pub is_before : Replica → Replica → Bool
is_before r s =
    ltb_ℤ r.sync_priority s.sync_priority
    || (eqb_ℤ r.sync_priority s.sync_priority
        && (ltb_text r.sync_state s.sync_state
            || (eq_text r.sync_state s.sync_state && ltb_ℤ r.lsn s.lsn)))

insert : Replica → List Replica → List Replica
insert r [] = r ∷ []
insert r (s ∷ ss) = let rest = insert r ss in if is_before r s then s ∷ rest else r ∷ s ∷ ss

-- `self.sort(key=…, reverse=True)`
unfoldable pub sort : List Replica → List Replica
unfolding insert is_before
sort [] = []
sort (r ∷ rs) = insert r (sort rs)

max_lsn_onto : ℤ → List Replica → ℤ
max_lsn_onto lsn [] = lsn
max_lsn_onto lsn (r ∷ rs) = max_lsn_onto (max_ℤ lsn r.lsn) rs

unfoldable pub max_lsn : Postgresql → List Replica → ℤ
unfolding max_lsn_onto
max_lsn pg (r ∷ s ∷ rs) = max_lsn_onto r.lsn (s ∷ rs)
max_lsn pg _ = pg.last_operation

-- `_ReplicaList(postgresql, cluster)`
unfoldable pub replica_list : ℕ → Postgresql → List Member → Option (List Replica)
unfolding eligible_members streaming replicas sort
replica_list frames pg cluster_members =
    let members = eligible_members pg cluster_members in
    let replication = streaming pg members in
    elim (replicas frames pg.synchronous_commit members replication replication) [
      | none ↦ none
      | some rs ↦ some (sort rs)
    ]
