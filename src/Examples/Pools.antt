-- ===== src/Examples/Pools.antt =====
-- Pools of two and of ten connections, shared by threads.
use cpp_hiredis_cluster.Base.{
  ℕ, ◌+◌, ◌*◌, ◌≤◌, ◌⊎◌, ◌≡◌, refl, true, false, List, [], ◌∷◌, none, some, length, arith,
}
use cpp_hiredis_cluster.Int.{pos}
use cpp_hiredis_cluster.Text.{Text, codes, c_string, find, starts_with}
use cpp_hiredis_cluster.Text.Stoi
use cpp_hiredis_cluster.Text.Stoi.{stoi}
use cpp_hiredis_cluster.Effect.Exception.{connection_failed}
use cpp_hiredis_cluster.Effect.Reply.{Reply}
use cpp_hiredis_cluster.Effect.Reply
use cpp_hiredis_cluster.Effect.Calls.{open_connection, is_usable}
use cpp_hiredis_cluster.Effect.Monad.{ok, throw, blocked, Conn, Hiredis, World, Action, pure}
use cpp_hiredis_cluster.Container.Close.{times_closed}
use cpp_hiredis_cluster.Container.Search.{lookup_slot}
use cpp_hiredis_cluster.Container.Types.{SlotRange, slot_less}
use cpp_hiredis_cluster.Container.OrderedMap.{map_at, map_set}
use cpp_hiredis_cluster.Process.{mentions_clusterdown}
use cpp_hiredis_cluster.Command.{process}
use cpp_hiredis_cluster.Pool.{
  ThreadedPool, pool_size, get_connection, insert_slots, insert_host, fill_pool, at_pool, on_nodes,
  new_pool, push,
}
use cpp_hiredis_cluster.Pool.Disconnect.{disconnect, threaded_pool}
use cpp_hiredis_cluster.Pool.Disconnect.Closing.{in_pools, disconnect-AllHome}
use cpp_hiredis_cluster.Pool.Turns.{with_queue, release_slot-get_connection}
use cpp_hiredis_cluster.Pool.Threads.{Shared, Reach, here, next, take, total, Reach-exclusive}
use cpp_hiredis_cluster.Pool.Progress.{Available, Reach-Available}
use cpp_hiredis_cluster.Pool.Crew.{Crew, Turn, begin, start, further, started, threads_num}
use cpp_hiredis_cluster.Pool.Crew.Finish.{Finished, Turns-Finished}
use cpp_hiredis_cluster.Pool.Filling.{insert_slots-length}
use cpp_hiredis_cluster.Pool.Stuck.{with_empty, insert_host-unreachable}
use cpp_hiredis_cluster.Pool.Commands.{PoolCluster, IsDown, attempts, process-attempts}
use cpp_hiredis_cluster.Examples.Keys.{slot_foo}
use cpp_hiredis_cluster.Examples.Outside.{network, quiet}

abbrev whole : SlotRange
whole = record { first = 0; second = 16383 }

abbrev pool_of : List Conn → ThreadedPool
pool_of queue = record { has_disconnect = true; nodes = (whole, some queue) ∷ []; connections = [] }

abbrev pair : ThreadedPool
pair = pool_of (1 ∷ 2 ∷ [])

pair_found : lookup_slot 12182 pair.nodes ≡ ok (whole, some (1 ∷ 2 ∷ []))
unfolding lookup_slot
pair_found = refl

first_taken :
    get_connection 12182 pair quiet ≡ (ok (whole, 1), with_queue pair whole (2 ∷ []), quiet)
first_taken =
    (release_slot-get_connection 12182 whole pair (omega arith) (omega arith) 1 (2 ∷ []) quiet quiet
      pair_found).0

abbrev at_rest : Shared
at_rest = record { pool = pair; held = [] }

abbrev one_out : Shared
one_out = record { pool = with_queue pair whole (2 ∷ []); held = (whole, 1) ∷ [] }

one_out-Reach : Reach ℕ at_rest one_out
one_out-Reach =
    next here (take 12182 (whole, 1) (with_queue pair whole (2 ∷ [])) quiet quiet first_taken)

Reach-Available_example : Available 12182 whole one_out quiet
Reach-Available_example =
    Reach-Available 12182 whole 1 (2 ∷ []) quiet (omega arith) (omega arith, tt, tt) pair_found refl
      one_out-Reach

Reach-exclusive_example : total 1 one_out ≤ 1
Reach-exclusive_example = Reach-exclusive 1 (omega arith) refl one_out-Reach

abbrev one_begun : Crew
one_begun = record (started threads_num pair) { waiting = 999; shared = one_out }

Turns-Finished_example :
    (1 ≤ 3 * 1000)
    × ((Finished 12182 whole 2 1000 one_begun × (1 ≡ 3 * 1000))
        ⊎ ((u : Crew) × Turn ℕ 12182 one_begun u))
Turns-Finished_example =
    Turns-Finished 12182 whole 1 (2 ∷ []) threads_num pair quiet (omega arith) (omega arith, tt, tt)
      pair_found
      (further start
        (begin 999 (whole, 1) (with_queue pair whole (2 ∷ [])) quiet quiet refl first_taken))

abbrev ten : ThreadedPool
ten = pool_of (1 ∷ 2 ∷ 3 ∷ 4 ∷ 5 ∷ 6 ∷ 7 ∷ 8 ∷ 9 ∷ 10 ∷ [])

disconnect-AllHome_example :
    (w' : World ℕ) × (disconnect network (λ e. e) ten quiet
      ≡ (ok tt, record ten { nodes = []; connections = [] }, w'))
    × ((c : Conn)
        → times_closed c w'.log
          ≡ in_pools some c ten.nodes
            + in_pools (λ con. con) c ten.connections
            + times_closed c quiet.log)
disconnect-AllHome_example = disconnect-AllHome network (λ e. e) ten quiet refl (refl, tt) tt

filled : (insert_slots network whole (codes "localhost") (pos 7000) pair quiet).0 ≡ ok tt
unfolding insert_slots fill_pool at_pool on_nodes new_pool push open_connection is_usable map_at
    map_set
filled = refl

insert_slots-length_example :
    (q : List Conn) × (map_at slot_less whole
        (insert_slots network whole (codes "localhost") (pos 7000) pair quiet).1.nodes
      ≡ some (some q))
    × (length q ≡ pool_size)
insert_slots-length_example =
    insert_slots-length network whole (codes "localhost") (pos 7000) pair quiet filled

abbrev no_network : Hiredis ℕ
no_network = record network { connect = λ host port e. (ok none, e) }

port_7001 : stoi (codes "7001") ≡ Stoi.Parsed.value (pos 7001)
unfolding stoi
port_7001 = refl

insert_host-unreachable_example :
    (insert_host no_network (codes "localhost") (codes "7001") pair quiet ≡ (
      throw connection_failed,
      with_empty no_network (codes "localhost") (codes "7001") (pos 7001) pair,
      quiet,
    ))
    × ((insert_host no_network
          (codes "localhost")
          (codes "7001")
          (with_empty no_network (codes "localhost") (codes "7001") (pos 7001) pair)
          quiet).0
        ≡ blocked)
unfolding map_at
insert_host-unreachable_example =
    insert_host-unreachable no_network (codes "localhost") (codes "7001") (pos 7001) port_7001
      (λ e. refl) pair quiet quiet refl

abbrev down_text : Text
down_text = codes "CLUSTERDOWN The cluster is down"

abbrev down_network : Hiredis ℕ
down_network = record network {
  request =
      λ con cmd e. (some (record { address = e; value = Reply.Reply.error down_text }), e + 1);
}

down_mentioned : mentions_clusterdown down_text ≡ true
unfolding mentions_clusterdown find c_string starts_with
down_mentioned = refl

abbrev pair_cluster : PoolCluster
pair_cluster = record { container = pair; user_moved_fn = none; ready_to_use = true; moved = false }

abbrev unheard : ℕ → Action PoolCluster ℕ (Unit {0})
unheard fn = pure tt

all-IsDown :
    (con : Conn) (e : ℕ)
    → IsDown down_network (λ e. e) unheard (codes "foo") (codes "GET foo") 12182 slot_foo con e
all-IsDown con e = record {
  address = e;
  text = down_text;
  replied = refl;
  unbroken = refl;
  down = down_mentioned;
}

process-attempts_example :
    (process down_network
      (threaded_pool down_network (λ e. e))
      unheard
      (codes "foo")
      (codes "GET foo")
      (attempts down_network
        (λ e. e)
        unheard
        (codes "foo")
        (codes "GET foo")
        12182
        slot_foo
        2
        pair_cluster
        quiet).0
      (attempts down_network
        (λ e. e)
        unheard
        (codes "foo")
        (codes "GET foo")
        12182
        slot_foo
        2
        pair_cluster
        quiet).1).0
    ≡ blocked
process-attempts_example =
    process-attempts down_network (λ e. e) unheard (codes "foo") (codes "GET foo") 12182 slot_foo
      whole (1 ∷ 2 ∷ []) pair_cluster quiet all-IsDown (refl, omega arith) pair_found
