-- ===== src/Examples/Commands.antt =====
-- include/hirediscommand.h: a redirected command.
use mathlib.Core.Option.{some-injective}
use mathlib.Core.Path.{subst}
use cpp_hiredis_cluster.Base.{
  ℕ, true, false, [], ◌∷◌, some, ◌≡◌, refl, ap, arith, inl, inr, Bool-cases, ◌==◌,
}
use cpp_hiredis_cluster.Text.{
  codes, size_add, size_sub, find_char, find, substr, starts_with, c_string, text_ltb,
}
use cpp_hiredis_cluster.Effect.Reply.{RedisReply}
use cpp_hiredis_cluster.Effect.Reply
use cpp_hiredis_cluster.Effect.Monad.{Action, pure, Conn, ok, after}
use cpp_hiredis_cluster.Effect.Calls.{request, free_reply, open_connection, is_usable}
use cpp_hiredis_cluster.SlotHash.{slot_by_key, crc16, scan, low_14_bits}
use cpp_hiredis_cluster.SlotHash.Table.{crc16tab}
use cpp_hiredis_cluster.Text.Stoi.{stoi}
use cpp_hiredis_cluster.Container
use cpp_hiredis_cluster.Container.OrderedMap.{map_at, map_insert, lower_bound}
use cpp_hiredis_cluster.Process.{
  check_critical, process_result, parse_host_port, address_at, mentions_clusterdown,
}
use cpp_hiredis_cluster.Effect.Live.{live, Owns}
use cpp_hiredis_cluster.Container.{
  DefaultContainer, insert_host, search_by_slots, step_back, check_node,
}
use cpp_hiredis_cluster.Container.Interface.{default_container}
use cpp_hiredis_cluster.Container.Laws.{default_container-RepliesKept}
use cpp_hiredis_cluster.Process.Redirect.{FitsSize}
use cpp_hiredis_cluster.Cluster.{
  Cluster, get_connection, serve_slot, on_container, create_new_connection, release_slot,
  release_host, set_moved,
}
use cpp_hiredis_cluster.Command.Buffer.{
  sds, formatted_string, Formatter, Buffered, temporary_command, buffers_kept,
  temporary_command-command,
}
use cpp_hiredis_cluster.Command.{process, command, alt_command, delete_reply}
use cpp_hiredis_cluster.Command.Replies.{process-Ends, Kept, alt_command-Kept}
use cpp_hiredis_cluster.Command.Answers.{process-IsDefined, HoldsReply}
use cpp_hiredis_cluster.Container.Live.{ConnectReturns, default_container-IsLive}
use cpp_hiredis_cluster.Effect.Defined.{IsDefined}
use cpp_hiredis_cluster.Examples.Keys.{three_nodes, slot_foo}
use cpp_hiredis_cluster.Examples.Outside.{network, quiet, answer, port_conn}

abbrev pub ready_cluster : Cluster DefaultContainer
ready_cluster = record {
  container = record { has_disconnect = true; connections = []; nodes = three_nodes };
  user_moved_fn = some 1;
  ready_to_use = true;
  moved = false;
}

abbrev pub ignore : ℕ → Action (Cluster DefaultContainer) ℕ (Unit {0})
ignore fn = pure tt

pub answer-FitsSize : (con : Conn) → FitsSize (answer con)
answer-FitsSize con = elim (Bool-cases (con == 7000)) [
  | inl redirects ↦ rw redirects (omega arith)
  | inr plain ↦ rw plain tt
]

process-Ends_example : Owns [] (
    process network
      (default_container network)
      ignore
      (codes "foo")
      (codes "SET foo bar")
      ready_cluster
      quiet)
unfolding live
process-Ends_example =
    process-Ends network (default_container network) ignore (default_container-RepliesKept network)
      (λ fn s w. refl) (λ fn s w x e. cc) [] (λ con cmd e broken. cc)
      (λ con cmd e r got.
        subst FitsSize (ap (λ (x : RedisReply). x.value) (some-injective _ _ got))
          (answer-FitsSize con))
      (codes "foo") (codes "SET foo bar") ready_cluster quiet refl

-- Node 7000 serves the key; the reply that comes back is the second one, from node 7001.
abbrev pub first_node : Cluster DefaultContainer
first_node = record ready_cluster {
  container = record {
    has_disconnect = true;
    connections = [];
    nodes = (record { first = 0; second = 16383 }, 7000) ∷ [];
  };
}

process_follows_moved :
    (process network
      (default_container network)
      ignore
      (codes "foo")
      (codes "SET foo bar")
      first_node
      quiet).0
    ≡ ok (some (record { address = 1; value = Reply.Reply.status (codes "OK") }))
unfolding process request slot_by_key crc16 crc16tab scan low_14_bits get_connection serve_slot
    on_container Container.get_connection search_by_slots step_back check_node lower_bound
    check_critical release_slot process_result parse_host_port address_at size_add size_sub
    find_char find substr starts_with free_reply create_new_connection insert_host open_connection
    map_at stoi c_string is_usable map_insert set_moved release_host text_ltb mentions_clusterdown
process_follows_moved = refl

network-ConnectReturns : ConnectReturns network
network-ConnectReturns host port e = inl (some (port_conn port), refl)

process-IsDefined_example :
    IsDefined HoldsReply
      (process network (default_container network) ignore (codes "foo") (codes "SET foo bar"))
process-IsDefined_example =
    process-IsDefined network (default_container network) ignore
      (default_container-IsLive network network-ConnectReturns) (λ fn s w. tt)
      (λ con cmd e. (_, refl, answer-FitsSize con)) (codes "foo") (codes "SET foo bar") 12182
      slot_foo

alt_command-Kept_example : Kept [] (
    after (delete_reply network (default_container network) ignore) (
      alt_command network
        (default_container network)
        ignore
        true
        (codes "foo")
        (codes "SET foo bar")
        ready_cluster
        quiet))
unfolding live
alt_command-Kept_example =
    alt_command-Kept network (default_container network) ignore
      (default_container-RepliesKept network) (λ fn s w. refl) (λ fn s w x e. cc) []
      (λ con cmd e broken. cc)
      (λ con cmd e r got.
        subst FitsSize (ap (λ (x : RedisReply). x.value) (some-injective _ _ got))
          (answer-FitsSize con))
      true (codes "foo") (codes "SET foo bar") ready_cluster quiet refl

-- Any arguments are formatted to the same command.
abbrev set_foo : Formatter ℕ
set_foo = record { format = λ type e. (some (codes "SET foo bar"), e) }

abbrev one_buffer : Buffered DefaultContainer
one_buffer = record { cluster = ready_cluster; buffers = sds ∷ [] }

temporary_command-command_example :
    temporary_command network
      (default_container network)
      ignore
      set_foo
      true
      formatted_string
      (codes "foo")
      one_buffer
      quiet
    ≡ buffers_kept network (default_container network) ignore set_foo formatted_string (sds ∷ []) (
        command network
          (default_container network)
          ignore
          true
          (codes "foo")
          (codes "SET foo bar")
          ready_cluster
          quiet)
temporary_command-command_example =
    temporary_command-command network (default_container network) ignore set_foo (codes "foo")
      (codes "SET foo bar") formatted_string true 0 one_buffer quiet refl
