-- ===== src/Pool.antt =====
-- src/examples/threadpool.cpp: `ThreadedPool`, a container with ten connections to each node, which
-- threads share. `blocked` is a thread that waits for a connection; it has given up the lock.
pub mod Lists
pub mod Borrow
pub mod Slots
pub mod Turns
pub mod Threads
pub mod Lent
pub mod Progress
pub mod Crew
pub mod Filling
pub mod Stuck
pub mod Commands
pub mod Laws
pub mod Disconnect
use cpp_hiredis_cluster.Base.{
  ℕ, zero, suc, Bool, true, false, List, [], ◌∷◌, ◌++◌, Option, none, some, if◌then◌else◌,
}
use cpp_hiredis_cluster.Int.{ℤ}
use cpp_hiredis_cluster.Text.{Text, codes, c_string, text_ltb}
use cpp_hiredis_cluster.Text.Stoi.{stoi}
use cpp_hiredis_cluster.Effect.Exception.{connection_failed}
use cpp_hiredis_cluster.Effect.Monad.{
  Outcome, ok, throw, fault, blocked, Conn, Hiredis, World, Action, after, pure, raise, lift, gets,
  put, reads, ◌>>=◌, ◌>>◌,
}
use cpp_hiredis_cluster.Effect.Calls.{open_connection, is_usable, close_connection}
use cpp_hiredis_cluster.Container.{search_by_slots, parsed_port}
use cpp_hiredis_cluster.Container.Types.{SlotRange, slot_less, SlotConnection, HostConnection}
use cpp_hiredis_cluster.Container.OrderedMap.{map_at, map_set}
use cpp_hiredis_cluster.Container.Interface.{ConnectionContainer}

-- `poolSize_`
abbrev pub pool_size : ℕ
pool_size = 10

-- A map of pools by key: a value is a pointer to the queue of the connections that no thread has.
abbrev pub Pools : Type 0 → Type 0 → Type 0
Pools K A = List (K × Option (List A))

-- Only a host connection may be a null pointer.
pub record ThreadedPool : Type 0 where
  pub has_disconnect : Bool
  pub nodes : Pools SlotRange Conn
  pub connections : Pools Text (Option Conn)

module _ {E A : Type 0} where
  -- `pullConnection`
  unfoldable pub pull : Action (List A) E A
  pull [] w = (blocked, [], w)
  pull (con ∷ queue) w = (ok con, queue, w)

  -- `pushConnection`
  unfoldable pub push : A → Action (List A) E (Unit {0})
  push con queue w = (ok tt, queue ++ (con ∷ []), w)

  module _ {K : Type 0} (less : K → K → Bool) where
    run_at :
        {B : Type 0} → K → Action (List A) E B → Option (Option (List A)) → Action (Pools K A) E B
    run_at key m none pools w = (fault, pools, w)
    run_at key m (some none) pools w = (fault, pools, w)
    run_at key m (some (some queue)) pools w =
        let (r, queue', w') = m queue w in (r, map_set less key (some queue') pools, w')

    -- A call on `*pools[key]`: a key without a pool gets a null pointer.
    unfoldable pub at_pool : {B : Type 0} → K → Action (List A) E B → Action (Pools K A) E B
    unfolding run_at
    at_pool key m pools w = run_at key m (map_at less key pools) pools w

    -- `pool = new ConPool()`
    unfoldable pub new_pool : K → Action (Pools K A) E (Unit {0})
    new_pool key pools w = (ok tt, map_set less key (some []) pools, w)

module _ {E : Type 0} where
  unfoldable pub on_nodes :
      {B : Type 0} → Action (Pools SlotRange Conn) E B → Action ThreadedPool E B
  on_nodes m s w = let (r, pools, w') = m s.nodes w in (r, record s { nodes = pools }, w')

  unfoldable pub on_connections :
      {B : Type 0} → Action (Pools Text (Option Conn)) E B → Action ThreadedPool E B
  on_connections m s w =
      let (r, pools, w') = m s.connections w in (r, record s { connections = pools }, w')

  -- `getConnection`: the iterator's node is the one with its key.
  unfoldable pub get_connection : ℕ → Action ThreadedPool E SlotConnection
  get_connection index = do
    s ← gets (λ s. s)
    found ← lift (search_by_slots index s.nodes)
    con ← on_nodes (at_pool slot_less found.0 pull)
    pure (found.0, con)

  unfoldable pub release_slot : SlotConnection → Action ThreadedPool E (Unit {0})
  release_slot con = on_nodes (at_pool slot_less con.0 (push con.1))

  unfoldable pub release_host : HostConnection → Action ThreadedPool E (Unit {0})
  release_host con = on_connections (at_pool text_ltb con.0 (push con.1))

module _ {E : Type 0} (h : Hiredis E) where
  module _ {A : Type 0} (pointer : Conn → A) where
    push_usable : Option Conn → Bool → Action (List A) E (Unit {0})
    push_usable (some con) true = push (pointer con)
    push_usable con usable = raise connection_failed

    -- `fillPool`, with the rounds that are left.
    unfoldable pub fill_pool : ℕ → Text → ℤ → Action (List A) E (Unit {0})
    unfolding push_usable
    fill_pool zero host port = pure tt
    fill_pool (suc rounds) host port = do
      conn ← open_connection h host port
      usable ← reads (is_usable h conn)
      push_usable conn usable
      fill_pool rounds host port

  -- `insert(SlotRange, const char *, int)`
  unfoldable pub insert_slots : SlotRange → Text → ℤ → Action ThreadedPool E (Unit {0})
  insert_slots slots host port = do
    on_nodes (new_pool slot_less slots)
    on_nodes (at_pool slot_less slots (fill_pool (λ con. con) pool_size host port))

  known_host : Text → Option (Option (List (Option Conn))) → Action ThreadedPool E (Option Conn)
  known_host key none = pure none
  known_host key (some pool) = on_connections (at_pool text_ltb key pull)

  -- A pool that cannot be filled stays in the map.
  new_host : Text → Text → Text → Action ThreadedPool E HostConnection
  new_host key host port = do
    on_connections (new_pool text_ltb key)
    number ← lift (parsed_port (stoi port))
    on_connections (at_pool text_ltb key (fill_pool some pool_size (c_string host) number))
    con ← on_connections (at_pool text_ltb key pull)
    pure (key, con)

  found_host : Text → Text → Text → Option Conn → Action ThreadedPool E HostConnection
  unfolding new_host
  found_host key host port (some con) = pure (key, some con)
  found_host key host port none = new_host key host port

  -- `insert(string, string)`
  unfoldable pub insert_host : Text → Text → Action ThreadedPool E HostConnection
  unfolding known_host found_host
  insert_host host port =
      let key = host ++ (codes ":" ++ port) in
      do
        s ← gets (λ s. s)
        con ← known_host key (map_at text_ltb key s.connections)
        found_host key host port con
