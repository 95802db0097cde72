-- ===== src/Container.antt =====
-- include/container.h: `DefaultContainer`, the connections of a cluster by slot range and by host.
pub mod Types
pub mod OrderedMap
pub mod Search
pub mod Interface
pub mod Laws
pub mod Nodes
pub mod Hosts
pub mod Live
pub mod Close
use cpp_hiredis_cluster.Base.{
  ℕ, zero, suc, ◌+◌, ◌-◌, ◌%◌, ◌^◌, Bool, true, false, not, ◌&&◌, ◌||◌, List, [], ◌∷◌, ◌++◌, Option,
  none, some, ltb, ◌==◌, if◌then◌else◌, length, get_elem?,
}
use cpp_hiredis_cluster.Int.{ℤ}
use cpp_hiredis_cluster.Text.{Text, codes, c_string, text_ltb}
use cpp_hiredis_cluster.Text.Stoi
use cpp_hiredis_cluster.Text.Stoi.{Parsed, stoi}
use cpp_hiredis_cluster.Effect.Exception.{
  Exception, connection_failed, node_search, std_out_of_range, std_invalid_argument,
}
use cpp_hiredis_cluster.Effect.Monad.{
  Outcome, ok, throw, fault, Conn, Event, opened, closed, Hiredis, World, Action, after, pure,
  raise, ◌>>=◌, ◌>>◌, lift, gets, put, note, reads,
}
use cpp_hiredis_cluster.Effect.Calls.{open_connection, is_usable, close_all}
use Types.{SlotRange, slot_less, SlotConnection, HostConnection}
use OrderedMap.{map_insert, map_at, lower_bound}

pub record DefaultContainer : Type 0 where
  -- `disconnect_ != NULL`
  pub has_disconnect : Bool
  pub connections : List (Text × Conn)
  pub nodes : List (SlotRange × Conn)

-- `if( node != storage.begin() ) --node;`, on a position.
unfoldable pub step_back : ℕ → ℕ
step_back zero = zero
step_back (suc node) = node

-- The tests on the node that is reached; `none` is `end()`.
unfoldable pub check_node : {V : Type 0} → ℕ → Option (SlotRange × V) → Outcome (SlotRange × V)
check_node index none = throw node_search
check_node index (some (range, con)) =
    if ltb index range.first || ltb range.second index then throw node_search else ok (range, con)

-- `searchBySlots`, on a map with any values: iterators are positions, `end()` is the size.
unfoldable pub search_by_slots : {V : Type 0} → ℕ → List (SlotRange × V) → Outcome (SlotRange × V)
search_by_slots index storage =
    let range : SlotRange = record { first = (index + 1) % 2 ^ 32; second = 0 } in
    check_node index (get_elem? storage (step_back (lower_bound slot_less range storage)))

-- The loop of the template `deleteConnection`, on its own copy of the map.
unfoldable pub erase_connection {ℓ} : {K : Type ℓ} → Conn → List (K × Conn) → List (K × Conn)
erase_connection con [] = []
erase_connection con ((k, c) ∷ m) =
    if c == con then erase_connection con m else (k, c) ∷ erase_connection con m

-- Both calls pass a map by value, so the erased copies are dropped at their end.
unfoldable pub delete_connection : Conn → DefaultContainer → DefaultContainer
delete_connection con s =
    let connections_copy = erase_connection con s.connections in
    let nodes_copy = erase_connection con s.nodes in s

unfoldable pub parsed_port : Parsed → Outcome ℤ
parsed_port (Stoi.Parsed.value n) = ok n
parsed_port Stoi.Parsed.invalid = throw std_invalid_argument
parsed_port Stoi.Parsed.too_large = throw std_out_of_range

module _ {E : Type 0} (h : Hiredis E) where
  -- `insert(SlotRange, const char *, int)`
  unfoldable pub store_node : SlotRange → Option Conn → Bool → Action DefaultContainer E (Unit {0})
  store_node slots (some c) true = do
    s ← gets (λ s. s)
    put (record s { nodes = map_insert slot_less slots c s.nodes })
  store_node slots conn _ = raise connection_failed

  unfoldable pub insert_slots : SlotRange → Text → ℤ → Action DefaultContainer E (Unit {0})
  unfolding store_node
  insert_slots slots host port = do
    conn ← open_connection h host port
    usable ← reads (is_usable h conn)
    store_node slots conn usable

  unfoldable pub store_host : Text → Option Conn → Bool → Action DefaultContainer E (Unit {0})
  store_host key (some c) true = do
    s ← gets (λ s. s)
    put (record s { connections = map_insert text_ltb key c s.connections })
  store_host key conn _ = pure tt

  unfoldable pub connect_host : Text → Text → Text → Action DefaultContainer E HostConnection
  unfolding parsed_port store_host
  connect_host key host port = do
    number ← lift (parsed_port (stoi port))
    conn ← open_connection h (c_string host) number
    usable ← reads (is_usable h conn)
    store_host key conn usable
    pure (key, conn)

  -- `insert(string, string)`
  unfoldable pub insert_host : Text → Text → Action DefaultContainer E HostConnection
  unfolding connect_host
  insert_host host port s w =
      let key = host ++ (codes ":" ++ port) in
      elim (map_at text_ltb key s.connections) [
        | some c ↦ pure (key, some c) s w
        | none ↦ connect_host key host port s w
      ]

  unfoldable pub get_connection : ℕ → Action DefaultContainer E SlotConnection
  get_connection index s w = (search_by_slots index s.nodes, s, w)

  -- `disconnect()`: the slot connections first; both maps are empty afterwards.
  unfoldable pub disconnect : Action DefaultContainer E (Unit {0})
  disconnect s w =
      let nodes_closed = if s.has_disconnect then close_all h s.nodes w else w in
      let all_closed =
        if s.has_disconnect then close_all h s.connections nodes_closed else nodes_closed in
      (ok tt, record s { nodes = []; connections = [] }, all_closed)
