-- ===== src/Lib.antt =====
-- Patroni, the manager of PostgreSQL clusters, as it is kept under database/postgresql/patroni of
-- this repository (paths below are relative to that directory).
--
-- A node of the cluster runs an HA loop (ha.py). It keeps the leader key and the /sync key in a
-- configuration store (dcs/__init__.py and its backends), decides which standbys have to confirm a
-- commit and which may win a leader race (quorum.py), starts long tasks in other threads
-- (async_executor.py), and resets a hardware watchdog while it is the leader (watchdog/base.py).
--
-- Common: the names that the other modules share; Booleans, lists, integers and numerals over native
--   numbers, and Python's str as a list of code points. str.lower acts on ASCII letters only, here as in
--   PostgreSQL's comparison of application names.
-- Collections: collections.py. CaseInsensitiveSet is a list of spellings of which no two agree up to
--   case, with the operations that it inherits from MutableSet as far as the program uses them.
-- Dictionary: collections.py. CaseInsensitiveDict is a list of keys with values of which no two keys
--   agree up to case; a KeyError is the absence of a result. Refines has
--   the calls on a dictionary as data, and the same calls on a function.
-- Quorum: quorum.py. Generator is a small monad for generators that mutate an object, yield and may
--   raise QuorumError; Transition, Resolver and Steps hold the classes and one definition for each
--   phase of _generate_transitions; iterate is __iter__ with its merging of transitions. The model
--   has no fuel: the restarts of the original loop are the end of its iterator. Places is what
--   _process_quorum_replication of ha.py has written to the two places after some transitions. The
--   name `*` in an empty list of standbys is not modelled.
-- Watchdog: watchdog/base.py. Action is a state and exception monad in which the state survives a
--   WatchdogError; Config, Device and Facade are WatchdogConfig, WatchdogBase with NullWatchdog, and
--   Watchdog. The kind of device and the choice of a device for a configuration are parameters, since
--   the platform decides them. How the configuration is read, and the log, are not modelled.
-- Async: async_executor.py. Critical is CriticalTask; Executor has one definition for each block that
--   AsyncExecutor runs under its lock; Threads runs those blocks as steps of any number of task
--   threads and one cancelling thread, in any order. A sequence of events says which thread moves and
--   how its function ends. Of the subprocess (postgresql/cancellable.py) only the flag is modelled.
-- Sync: SyncState and AbstractDCS.sync_state of dcs/__init__.py. A value in the /sync key is a
--   dictionary with the types that are written there, or no dictionary; JSON itself is the standard
--   library's. Names holds str.split, str.strip and sorted as far as they are used.
-- Slots: slot_name_from_member_name and Cluster.get_slot_name_on_primary of dcs/__init__.py. The walk
--   runs on fuel, one round more than there are members, and the fuel is proved to be enough. A code
--   point has at most seven digits. Wanted and Replication are Cluster.get_replication_slots with all
--   that it calls; of a permanent slot's dictionary the entries are kept that are read there, and
--   whether the leader runs a version before 4.0.0 is a parameter. Retain is
--   AbstractDCS._build_retain_slots, with times as the clock gives them.
-- Tags: tags.py. A value of the dictionary is what parse_int, parse_bool, bool and str make of it, since
--   any YAML value may stand there.
-- Cluster: Member, Leader, Failover, Status, TimelineHistory and Cluster of dcs/__init__.py, as they are
--   once the keys are parsed, with the lookups on them. A Version is any type.
-- Ha: ha.py. Ha.Node holds what a cycle knows: the global configuration as its properties give it,
--   the PostgreSQL instance of the node, and the current and the previous view, whose lists of members
--   may be one object (shares_members). The answers of the other nodes are a function, which returns
--   nothing for a node that cannot be reached. Status is _MemberStatus, Race is _is_healthiest_node,
--   Candidates and Manual hold the methods around it up to is_healthiest_node, and Switch
--   process_manual_failover_from_leader. Multisync and Prepromote hold the writes to the /sync key and
--   to synchronous_standby_names; the store and the handler are parameters (Sync.Handler has the
--   handler's contract, which Standby.Implements fills), and a snapshot of both places is kept after
--   each step. Waiting is not modelled. Failsafe holds the class of that name and both sides of its requests, each of which may
--   be lost on the way there or back. Lease is what a node takes for its leadership, from the answers
--   of the store and the views, on one clock, with the places that take it without an answer (the
--   failsafe mode and the end of the bootstrap) or keep it without the key (the shutdown).
-- Standby: postgresql/sync.py. Token is SYNC_REP_PARSER_RE on ASCII digits, on one step for each
--   character; Parse is parse_sync_standby_names with quote_standby_name; Format is the value that
--   set_synchronous_standby_names writes; Replicas is _ReplicaList, where the frames left of the
--   interpreter's stack bound _should_cascade; State is SyncHandler up to current_state. PostgreSQL
--   answers with one record before and one after the cache is dropped. Implements is SyncHandler as
--   the HA loop uses it: what is seen at each look is a parameter, PostgreSQL waits for the value that
--   it was last given, and the wait for it to reload is left out.
-- Global: global_config.py. Config holds the modes and numbers, and what Ha and Standby read of them.
--   As in Tags, a value is what the parsers, bool and str make of it.
-- Misc: postgresql/misc.py. Number is Python's int on ASCII digits, Lsn the WAL positions and the
--   timeline history, Version the version numbers. A PostgresException is a value.
-- Utils: utils.py. Retry is the class of that name: time is counted in hundredths of a second, and
--   the random numbers, what each sleep takes beyond what it asks for, and the function are parameters. Its loop runs on fuel, one round for each attempt or for each hundredth up to the
--   deadline, which is proved to be enough. Tree and Patch are deep_compare and patch_config on
--   dictionaries of values of which the type and the text are kept; how Python writes a dictionary
--   out is a parameter. The dictionaries of a patch are not shared with the configuration.
--
-- Not modelled are the rest of the HA loop and of the cluster view, and the parsers of utils.py; the
-- clients of network services, process control, bootstrap and rewind, SQL (with Citus and the
-- comparison of slots), HTTP and the command line, which are input and output; and the TypeScript
-- applications of the repository.
pub mod Common
pub mod Collections
pub mod Quorum
pub mod Watchdog
pub mod Async
pub mod Sync
pub mod Slots
pub mod Dictionary
pub mod Tags
pub mod Cluster
pub mod Misc
pub mod Utils
pub mod Standby
pub mod Global
pub mod Ha
