-- ===== src/Examples/Links.antt =====
-- include/asynchirediscommand.h: the connections of an asynchronous cluster of two nodes.
use cpp_hiredis_cluster.Base.{arith, ℕ, ◌≡◌, refl, true, false, [], ◌∷◌, none, some}
use cpp_hiredis_cluster.Int.{pos}
use cpp_hiredis_cluster.Text.{codes}
use cpp_hiredis_cluster.Effect.Monad.{ok, Hiredis, World}
use cpp_hiredis_cluster.Container.{DefaultContainer}
use cpp_hiredis_cluster.Cluster.{Cluster, init, init_entries, parse_entry, construct}
use cpp_hiredis_cluster.Cluster
use cpp_hiredis_cluster.Effect.Calls.{request, is_usable, free_reply, open_connection}
use cpp_hiredis_cluster.Container.{insert_slots, store_node}
use cpp_hiredis_cluster.Container.OrderedMap.{map_insert}
use cpp_hiredis_cluster.Process.{check_critical, check_reply}
use cpp_hiredis_cluster.Cluster.{
  init, init_entries, init_reply, insert_entry, set_ready, constructed, on_container, parse_entry,
  construct,
}
use cpp_hiredis_cluster.Command.{dial, with_reply, construct_in, free_pointer, free_context}
use cpp_hiredis_cluster.Text.{c_string}
use cpp_hiredis_cluster.Async.Connect.{new_context, set_cluster}
use cpp_hiredis_cluster.Async.Connect.{
  ConnectContext, at, Linked, AsyncSockets, null, holds, connect, disconnected, nodes_container,
  cluster_destruct_cb, create_cluster,
}
use cpp_hiredis_cluster.Async.Connect.Counting.{Counts, none_yet, connects, loses, Happens-Counts}
use cpp_hiredis_cluster.Async.Connect.Adapter.{
  Adapted, boost_sockets, HasClients, Happens-HasClients,
}
use cpp_hiredis_cluster.Async.Connect.Leads.{Ends}
use cpp_hiredis_cluster.Async.Connect.Created.{create_cluster-Ends}
use cpp_hiredis_cluster.Async.Connect.Leftover.{destroy-misused, disconnect-lost}
use cpp_hiredis_cluster.Async.Connect.Shutdown.{
  none_ended, ends, emptied, behind, destroy-disconnect,
}
use cpp_hiredis_cluster.Async.Connect.{deleted, disconnect, remove, disconnect_cb}
use cpp_hiredis_cluster.Effect.Calls.{close_all, close_connection}
use cpp_hiredis_cluster.Container
use cpp_hiredis_cluster.Examples.Clusters.{slots_reply, held, half_nodes}
use cpp_hiredis_cluster.Examples.Outside.{network, port_conn}

-- Every request is answered with the slots of the two nodes.
abbrev slots_network : Hiredis ℕ
slots_network = record network { request = λ con cmd e. (some slots_reply, e) }

-- The adapter takes every connection, and none awaits a reply.
abbrev sockets : AsyncSockets ℕ
sockets = record {
  connect_async = λ host port e. (some (port_conn port), e);
  attach = λ con e. (true, e);
  disconnect_async = λ con e. (true, e);
}

abbrev before : World (Linked ℕ)
before = record {
  outside = record { outside = 0; context = null; contexts = []; tied = []; misused = false };
  log = [];
}

create_cluster-Ends_example :
    Ends
      (Counts true)
      (create_cluster slots_network sockets (codes "localhost") (pos 7000) tt before)
create_cluster-Ends_example =
    create_cluster-Ends slots_network sockets (codes "localhost") (pos 7000) before refl refl

-- Two connections, to the two nodes.
abbrev context : ConnectContext
context = record { has_adapter = true; has_cluster = true; lifetime = pos 2 }

abbrev two_tied : Linked ℕ
two_tied = record {
  outside = 0;
  context = at context;
  contexts = 7000 ∷ 7001 ∷ [];
  tied = 7000 ∷ 7001 ∷ [];
  misused = false;
}

Happens-Counts_example :
    Counts true
      (disconnected 7001 (connect slots_network sockets (codes "localhost") (pos 7002) two_tied).1)
Happens-Counts_example =
    Happens-Counts slots_network sockets
      (loses 7001 (connects (codes "localhost") (pos 7002) none_yet)) ((refl, refl), refl)

-- The network, for a world with an adapter.
abbrev adapted_network : Hiredis (Adapted ℕ)
adapted_network = record {
  connect = λ host port l. (ok none, l);
  has_error = λ con l. false;
  error_text = λ con l. [];
  close = λ con l. l;
  dial = λ host port l. (some 1, l);
  free_context = λ con l. l;
  request = λ con cmd l. (some slots_reply, l);
}

abbrev no_client : Linked (Adapted ℕ)
no_client = record {
  outside = record { rest = 0; adapter = record { clients = [] } };
  context = at (record context { lifetime = pos 0 });
  contexts = [];
  tied = [];
  misused = false;
}

Happens-HasClients_example : HasClients (
    disconnected 7001
      (connect adapted_network (boost_sockets sockets) (codes "localhost") (pos 7002) no_client).1)
Happens-HasClients_example =
    Happens-HasClients adapted_network sockets
      (loses 7001 (connects (codes "localhost") (pos 7002) none_yet)) tt

abbrev async_cluster : Cluster DefaultContainer
async_cluster = record {
  container = held;
  user_moved_fn = none;
  ready_to_use = true;
  moved = false;
}

destroy-misused_example :
    (Cluster.destroy
      (nodes_container slots_network sockets)
      (some cluster_destruct_cb)
      async_cluster
      (record { outside = two_tied; log = [] })).1.outside.misused
    ≡ true
unfolding holds
destroy-misused_example =
    destroy-misused slots_network sockets async_cluster (record { outside = two_tied; log = [] })
      context (record { first = 8192; second = 16383 }) 7001
      ((record { first = 0; second = 8191 }, 7000) ∷ []) refl refl refl refl refl refl

-- The nodes are the two connections that are open.
abbrev clean_cluster : Cluster DefaultContainer
clean_cluster = record async_cluster {
  container = record { has_disconnect = true; connections = []; nodes = half_nodes };
}

abbrev running : World (Linked ℕ)
running = record { outside = two_tied; log = [] }

-- Every connection awaits a reply when it is disconnected.
abbrev slow_sockets : AsyncSockets ℕ
slow_sockets = record sockets { disconnect_async = λ con e. (false, e) }

-- Both connections have ended.
abbrev all_ended : Linked ℕ
all_ended =
    disconnected 7001
      (disconnected 7000 (behind slots_network slow_sockets clean_cluster running).outside)

destroy-disconnect_example :
    let gone =
      (Cluster.destroy
        (nodes_container slots_network slow_sockets)
        (some cluster_destruct_cb)
        (emptied slots_network slow_sockets clean_cluster running)
        (record (behind slots_network slow_sockets clean_cluster running) {
          outside = all_ended;
        })).1.outside in
    (gone.misused ≡ false) × (gone.context ≡ deleted) × ((disconnected 7000 gone).misused ≡ false)
unfolding Cluster.disconnect Container.disconnect on_container close_all close_connection disconnect
    holds remove disconnected disconnect_cb
destroy-disconnect_example =
    destroy-disconnect slots_network slow_sockets clean_cluster running all_ended 7000 refl
      ((refl, refl), refl) (λ con. ground arith) (ends 7001 (ends 7000 none_ended)) refl

disconnect-lost_example :
    let lost : World (Linked ℕ) = record running { outside = disconnected 7001 two_tied } in
    let told =
      Cluster.delete_connection (nodes_container slots_network sockets) 7001 clean_cluster lost in
    (Cluster.disconnect (nodes_container slots_network sockets) told.1 told.2).2.outside.misused
    ≡ true
unfolding holds remove
disconnect-lost_example =
    disconnect-lost slots_network sockets clean_cluster running
      (record { first = 8192; second = 16383 }) 7001
      ((record { first = 0; second = 8191 }, 7000) ∷ []) refl refl refl

-- The two nodes of the reply are connected, the last one first.
create_cluster_connects :
    (create_cluster slots_network sockets (codes "localhost") (pos 7000) tt before).2.outside.tied
    ≡ 7000 ∷ 7001 ∷ []
unfolding create_cluster dial check_critical request new_context with_reply construct_in construct
    init init_entries insert_entry parse_entry insert_slots open_connection is_usable store_node
    connect map_insert set_cluster free_pointer free_reply free_context on_container init_reply
    set_ready constructed check_reply c_string
create_cluster_connects = refl
