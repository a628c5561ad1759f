-- ===== src/Ha/Failsafe.antt =====
-- `Failsafe`, and the calls by which a primary asks the members whether it may go on without the
-- configuration store; the answering side is `do_POST_failsafe` of api.py.
use area.Common.{
  ℤ, pos, ◌+ℤ◌, ltb_ℤ, Bool, true, false, not, Option, none, some, List, [], ◌∷◌, map, keep, every,
  some_of, is_empty, nonzero, Text, eq_text, if◌then◌else◌,
}

-- The document of the request.
pub record Announcement : Type 0 where
  pub name : Text
  pub conn_url : Option Text
  pub api_url : Option Text
  pub slots : Option (List (Text × ℤ))

pub record Failsafe : Type 0 where
  pub last_update : ℤ
  pub name : Text
  pub conn_url : Option Text
  pub api_url : Option Text
  pub slots : Option (List (Text × ℤ))

-- `_reset_state`
unfoldable pub reset_state : Failsafe
reset_state = record {
  last_update = pos 0;
  name = [];
  conn_url = none;
  api_url = none;
  slots = none;
}

unfoldable pub update_slots : Failsafe → List (Text × ℤ) → Failsafe
update_slots f slots = record f { slots = some slots }

-- `update` at a time.
unfoldable pub update : ℤ → Announcement → Failsafe
update now msg = record {
  last_update = now;
  name = msg.name;
  conn_url = msg.conn_url;
  api_url = msg.api_url;
  slots = msg.slots;
}

unfoldable pub is_active : ℤ → ℤ → Failsafe → Bool
is_active ttl now f = ltb_ℤ now (f.last_update +ℤ ttl)

-- The name of `leader`.
unfoldable pub leader : ℤ → ℤ → Failsafe → Option Text
unfolding is_active
leader ttl now f = if is_active ttl now f then some f.name else none

unfoldable pub set_is_active : ℤ → Failsafe → Failsafe
unfolding reset_state
set_is_active value f = if nonzero value then record f { last_update = value } else reset_state

-- A member that may be asked. `is_leading`: it runs as a primary.
pub record Peer : Type 0 where
  pub failsafe_mode : Bool
  pub is_leading : Bool
  pub last_wal_lsn : Option ℤ
  pub failsafe : Failsafe

-- `update_failsafe`; the answer is false for 'Running as a leader'.
unfoldable pub update_failsafe : ℤ → Announcement → Peer → Bool × Peer
unfolding update
update_failsafe now msg p =
    if p.is_leading then (false, p) else (true, record p { failsafe = update now msg })

-- `do_POST_failsafe`: whether the answer is 200 with 'Accepted'.
unfoldable pub post_failsafe : ℤ → Announcement → Peer → Bool × Peer
unfolding update_failsafe
post_failsafe now msg p = if p.failsafe_mode then update_failsafe now msg p else (false, p)

-- What becomes of a request, and when the member reads it: it may not arrive, or its answer may not.
pub data Delivery : Type 0 where
  lost : Delivery
  unanswered answered : ℤ → Delivery

pub record Response : Type 0 where
  pub member_name : Text
  pub accepted : Bool
  pub lsn : Option ℤ

-- `call_failsafe_member`
unfoldable pub call_failsafe_member : Announcement → Delivery → Text → Peer → Response × Peer
unfolding post_failsafe
call_failsafe_member msg lost name p =
    (record { member_name = name; accepted = false; lsn = none }, p)
call_failsafe_member msg (unanswered now) name p =
    (record { member_name = name; accepted = false; lsn = none }, (post_failsafe now msg p).1)
call_failsafe_member msg (answered now) name p =
    let (ok, p') = post_failsafe now msg p in
    (record { member_name = name; accepted = ok; lsn = if ok then p.last_wal_lsn else none }, p')

-- The members by their names.
abbrev pub Peers : Type 0
Peers = Text → Peer

unfoldable pub call : Announcement → (Text → Delivery) → Peers → Text → Response × Peer
unfolding call_failsafe_member
call msg delivery peers name = call_failsafe_member msg (delivery name) name (peers name)

-- `{r.member_name: r.lsn for r in results if r.lsn}`
unfoldable pub feedback : List Response → List (Text × ℤ)
feedback [] = []
feedback (r ∷ rs) =
    let rest = feedback rs in
    elim r.lsn [
      | none ↦ rest
      | some lsn ↦ if nonzero lsn then (r.member_name, lsn) ∷ rest else rest
    ]

-- The members of the topology but this node.
abbrev pub others : Text → List (Text × Text) → List Text
others name topology =
    map (λ (t : Text × Text). t.0) (keep (λ (t : Text × Text). not (eq_text t.0 name)) topology)

-- `check_failsafe_topology`: the result, and the state of this node. The /failsafe key is none where it
-- holds no dictionary.
unfoldable pub check_failsafe_topology :
    Option (List (Text × Text))
    → Announcement
    → (Text → Delivery)
    → Peers
    → Failsafe
    → Bool × Failsafe
unfolding call feedback update_slots
check_failsafe_topology none msg delivery peers f = (false, f)
check_failsafe_topology (some topology) msg delivery peers f =
    let members = others msg.name topology in
    let results = map (λ name. (call msg delivery peers name).0) members in
    if not (some_of (λ (t : Text × Text). eq_text t.0 msg.name) topology)
    then (false, f)
    else if is_empty members
    then (true, f)
    else if every (λ r. r.accepted) results
    then (true, update_slots f (feedback results))
    else (false, f)
