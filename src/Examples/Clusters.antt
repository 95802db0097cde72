-- ===== src/Examples/Clusters.antt =====
-- A cluster of two nodes, built from the reply to `cluster slots`.
use cpp_hiredis_cluster.Base.{ℕ, ◌≡◌, refl, true, [], ◌∷◌, arith}
use cpp_hiredis_cluster.Int.{pos}
use cpp_hiredis_cluster.Text.{codes}
use cpp_hiredis_cluster.Effect.Reply.{Reply, Replies, RedisReply, end, element}
use cpp_hiredis_cluster.Effect.Monad.{ok, World}
use cpp_hiredis_cluster.Container.{DefaultContainer, disconnect}
use cpp_hiredis_cluster.Container.Close.{times_closed, disconnect_twice}
use cpp_hiredis_cluster.Container.Interface.{default_container}
use cpp_hiredis_cluster.Container.Search.{lookup_slot}
use cpp_hiredis_cluster.Container.Nodes.{Nodes}
use cpp_hiredis_cluster.Cluster.{Cluster, parse_entry, construct, get_connection}
use cpp_hiredis_cluster.Cluster.Routing.{Connects, empty_container, get_connection-construct}
use cpp_hiredis_cluster.Base.{none, some}
use cpp_hiredis_cluster.Text.{c_string}
use cpp_hiredis_cluster.Effect.Exception.{connection_failed}
use cpp_hiredis_cluster.Effect.Monad.{throw, Hiredis, received, opened}
use cpp_hiredis_cluster.Effect.Calls.{request, open_connection, is_usable}
use cpp_hiredis_cluster.Process.{check_critical, check_reply}
use cpp_hiredis_cluster.Container.{insert_slots, store_node}
use cpp_hiredis_cluster.Cluster.{
  init, init_reply, init_entries, insert_entry, on_container, constructed,
}
use cpp_hiredis_cluster.Command.{
  create_cluster, create_pointer, create_on, dial, with_reply, construct_in,
}
use cpp_hiredis_cluster.Command.Startup.{Closes, create_cluster-Closes}
use cpp_hiredis_cluster.Examples.Keys.{slot_foo}
use cpp_hiredis_cluster.Examples.Outside.{network, quiet}

abbrev entry_reply : ℕ → ℕ → ℕ → Reply
entry_reply first second port = Reply.array (
    element (Reply.integer (pos first)) (
      element (Reply.integer (pos second)) (
        element
          (Reply.array
            (element (Reply.string (codes "localhost")) (element (Reply.integer (pos port)) end)))
          end)))

-- The upper half comes first.
abbrev two_halves : Replies
two_halves = element (entry_reply 8192 16383 7001) (element (entry_reply 0 8191 7000) end)

abbrev pub slots_reply : RedisReply
slots_reply = record { address = 9; value = Reply.array two_halves }

abbrev pub half_nodes : Nodes
half_nodes =
    (record { first = 8192; second = 16383 }, 7001)
    ∷ (record { first = 0; second = 8191 }, 7000)
    ∷ []

two_halves-Connects : Connects network two_halves 0 half_nodes 0
unfolding parse_entry
two_halves-Connects =
    (_, _, _, refl, refl, refl, refl, (_, _, _, refl, refl, refl, refl, (refl, refl)))

get_connection-construct_example :
    (cl : Cluster DefaultContainer) × (w' : World ℕ) × (construct
        (default_container network)
        empty_container
        true
        true
        slots_reply
        quiet
      ≡ (ok cl, w'))
    × ((get_connection (default_container network) (codes "foo") cl w').0
        ≡ lookup_slot 12182 half_nodes)
    × (w'.outside ≡ 0)
get_connection-construct_example =
    get_connection-construct network slots_reply two_halves half_nodes 0 quiet (codes "foo") 12182
      refl two_halves-Connects (omega arith) slot_foo

abbrev pub held : DefaultContainer
held = record { has_disconnect = true; connections = (codes "a:1", 7001) ∷ []; nodes = half_nodes }

-- Node 7001 is held in both maps.
disconnect_twice_example :
    times_closed 7001
      (disconnect network (disconnect network held quiet).1 (disconnect network held quiet).2).2.log
    ≡ 2
disconnect_twice_example = disconnect_twice network 7001 held quiet

-- Every request is answered with the slots of the two nodes, which cannot be reached.
abbrev unreachable_network : Hiredis ℕ
unreachable_network = record network {
  connect = λ host port e. (ok none, e);
  request = λ con cmd e. (some slots_reply, e);
}

abbrev new_container : DefaultContainer
new_container = record { has_disconnect = true; connections = []; nodes = [] }

create_cluster-Closes_example : Closes 7000 unreachable_network 7000 0 (
    create_cluster unreachable_network
      (default_container unreachable_network)
      new_container
      true
      true
      (codes "localhost")
      (pos 7000)
      tt
      quiet)
create_cluster-Closes_example =
    create_cluster-Closes 7000 unreachable_network new_container true true (codes "localhost")
      (pos 7000) quiet 7000 refl

-- This run throws: the dialed connection 7000 is open, and the reply is not freed.
create_cluster_leaks :
    create_cluster unreachable_network
      (default_container unreachable_network)
      new_container
      true
      true
      (codes "localhost")
      (pos 7000)
      tt
      quiet
    ≡ (throw connection_failed, tt, record quiet { log = received 9 ∷ (opened 7000 ∷ []) })
unfolding create_cluster create_pointer create_on dial check_critical check_reply request with_reply
    construct_in construct init init_reply init_entries insert_entry parse_entry insert_slots
    open_connection is_usable store_node on_container constructed c_string
create_cluster_leaks = refl
