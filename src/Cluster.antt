-- ===== src/Cluster.antt =====
-- include/cluster.h: the cluster object over any connection container.
pub mod Routing
use cpp_hiredis_cluster.Base.{ℕ, Bool, true, false, ◌&&◌, Option, none, some, if◌then◌else◌, length}
use cpp_hiredis_cluster.Int.{ℤ, to_u32, to_i32}
use cpp_hiredis_cluster.Text.{Text, codes, c_string}
use cpp_hiredis_cluster.SlotHash.{slot_by_key}
use cpp_hiredis_cluster.Effect.Exception.{connection_failed, not_initialized, invalid_argument}
use cpp_hiredis_cluster.Effect.Reply.{Reply, Replies, RedisReply, end, element}
use cpp_hiredis_cluster.Effect.Monad.{
  Outcome, ok, throw, fault, Conn, World, Action, pure, raise, lift, ◌>>◌,
}
use cpp_hiredis_cluster.Effect.Calls.{throw_with}
use cpp_hiredis_cluster.Container.Types.{SlotRange, SlotConnection, HostConnection}
use cpp_hiredis_cluster.Container.Interface.{ConnectionContainer}

-- `CmdInit`
abbrev pub cmd_init : Text
cmd_init = codes "cluster slots"

-- The members that the methods read; callbacks are numbered.
pub record Cluster (S : Type 0) : Type 0 where
  pub container : S
  -- `userMovedFn_`
  pub user_moved_fn : Option ℕ
  pub ready_to_use : Bool
  pub moved : Bool

-- One element of the reply to `cluster slots`: the slots and the master that serves them.
pub record Entry : Type 0 where
  pub slots : SlotRange
  pub host : Text
  pub port : ℤ

-- The two fields of the master's own array that are read.
parse_master : Reply → Option (Text × ℤ)
parse_master (Reply.array (element (Reply.string host) (element (Reply.integer port) more))) =
    some (c_string host, to_i32 port)
parse_master reply = none

make_entry : ℤ → ℤ → Option (Text × ℤ) → Option Entry
make_entry first second none = none
make_entry first second (some (host, port)) = some (record {
  slots = record { first = to_u32 first; second = to_u32 second };
  host = host;
  port = port;
})

-- The type tests of `init` on one element.
unfoldable pub parse_entry : Reply → Option Entry
unfolding parse_master make_entry
parse_entry
      (Reply.array
        (element (Reply.integer first) (element (Reply.integer second) (element master more)))) =
    make_entry first second (parse_master master)
parse_entry reply = none

module _ {E : Type 0} (c : ConnectionContainer E) where
  open c use {State}

  -- A call on `connections_`.
  unfoldable pub on_container : {A : Type 0} → Action State E A → Action (Cluster State) E A
  on_container m cl w = let (r, s, w') = m cl.container w in (r, record cl { container = s }, w')

  unfoldable pub insert_entry : RedisReply → Option Entry → Action (Cluster State) E (Unit {0})
  insert_entry root none = throw_with (some root) connection_failed
  insert_entry root (some e) = on_container (c.insert_slots e.slots e.host e.port)

  -- The loop of `init`.
  unfoldable pub init_entries : RedisReply → Replies → Action (Cluster State) E (Unit {0})
  unfolding insert_entry
  init_entries root end = pure tt
  init_entries root (element reply rest) =
      insert_entry root (parse_entry reply) >> init_entries root rest

  unfoldable pub set_ready : Action (Cluster State) E (Unit {0})
  set_ready cl w = (ok tt, record cl { ready_to_use = true }, w)

  unfoldable pub init_reply : RedisReply → Reply → Action (Cluster State) E (Unit {0})
  init_reply root (Reply.array elements) = init_entries root elements >> set_ready
  init_reply root reply = throw_with (some root) connection_failed

  unfoldable pub init : RedisReply → Action (Cluster State) E (Unit {0})
  unfolding init_reply set_ready
  init root = init_reply root root.value

  unfoldable pub constructed :
      Outcome (Unit {0}) × Cluster State × World E → Outcome (Cluster State) × World E
  constructed (ok done, cl, w) = (ok cl, w)
  constructed (throw e, cl, w) = (throw e, w)
  constructed (fault, cl, w) = (fault, w)
  constructed (Outcome.blocked, cl, w) = (Outcome.blocked, w)

  -- The constructor, over a new container. When it throws, no destructor runs: `connections_` is a
  -- plain pointer, so the container stays behind with what it has opened.
  unfoldable pub construct :
      State → Bool → Bool → RedisReply → World E → Outcome (Cluster State) × World E
  unfolding constructed
  construct container has_connect has_disconnect root w =
      let cl : Cluster State = record {
        container = container;
        user_moved_fn = none;
        ready_to_use = false;
        moved = false;
      } in
      constructed (
        (if has_connect && has_disconnect
            then init root
            else throw_with (some root) invalid_argument)
          cl w)

  -- The destructor: the user's function first, then the container's own destructor.
  unfoldable pub destroy : Option (E → E) → Cluster State → World E → Outcome (Unit {0}) × World E
  destroy callback cl w =
      let called : World E = elim callback [
        | none ↦ w
        | some f ↦ record w { outside = f w.outside }
      ] in
      let (r, s, w') = c.disconnect cl.container called in (r, w')

  unfoldable pub serve_slot : Option ℕ → Action (Cluster State) E SlotConnection
  serve_slot none = lift fault
  serve_slot (some slot) = on_container (c.get_connection slot)

  -- `getConnection`; a key is shorter than 2^31 bytes, as its length is narrowed to `int`.
  unfoldable pub get_connection : Text → Action (Cluster State) E SlotConnection
  unfolding serve_slot
  get_connection key cl w =
      (if cl.ready_to_use then serve_slot (slot_by_key key (length key)) else raise not_initialized)
        cl w

  unfoldable pub create_new_connection : Text → Text → Action (Cluster State) E HostConnection
  create_new_connection host port = on_container (c.insert_host host port)

  unfoldable pub release_slot : SlotConnection → Action (Cluster State) E (Unit {0})
  release_slot con = on_container (c.release_slot con)

  unfoldable pub release_host : HostConnection → Action (Cluster State) E (Unit {0})
  release_host con = on_container (c.release_host con)

  unfoldable pub delete_connection : Conn → Action (Cluster State) E (Unit {0})
  delete_connection con = on_container (c.delete_connection con)

  unfoldable pub disconnect : Action (Cluster State) E (Unit {0})
  disconnect = on_container c.disconnect

  unfoldable pub set_moved_cb : Option ℕ → Cluster State → Cluster State
  set_moved_cb fn cl = record cl { user_moved_fn = fn }

  unfoldable pub stop : Cluster State → Cluster State
  stop cl = record cl { ready_to_use = false }

  -- The user's function is called with the cluster, which it may change.
  module _ (user_moved : ℕ → Action (Cluster State) E (Unit {0})) where
    unfoldable pub call_user : Option ℕ → Action (Cluster State) E (Unit {0})
    call_user none = pure tt
    call_user (some fn) = user_moved fn

    unfoldable pub set_moved : Action (Cluster State) E (Unit {0})
    unfolding call_user
    set_moved cl w = call_user cl.user_moved_fn (record cl { moved = true }) w
