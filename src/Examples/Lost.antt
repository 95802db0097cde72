-- ===== src/Examples/Lost.antt =====
-- include/hirediscommand.h: commands that are answered, redirected, refused and lost.
use cpp_hiredis_cluster.Base.{
  ℕ, ◌+◌, true, false, [], ◌∷◌, Option, none, some, ◌≡◌, refl, ◌==◌, if◌then◌else◌,
}
use cpp_hiredis_cluster.Text.{
  Text, codes, size_add, size_sub, find_char, find, substr, starts_with, c_string, text_ltb,
}
use cpp_hiredis_cluster.Effect.Reply.{Reply, RedisReply}
use cpp_hiredis_cluster.Effect.Exception.{logic_error}
use cpp_hiredis_cluster.Effect.Monad.{
  after, fault, ok, throw, Hiredis, World, opened, received, freed,
}
use cpp_hiredis_cluster.Effect.Calls.{open_connection, is_usable}
use cpp_hiredis_cluster.SlotHash.{slot_by_key, crc16, scan, low_14_bits}
use cpp_hiredis_cluster.SlotHash.Table.{crc16tab}
use cpp_hiredis_cluster.Text.Stoi.{stoi}
use cpp_hiredis_cluster.Container
use cpp_hiredis_cluster.Container.OrderedMap.{map_at, map_insert, lower_bound}
use cpp_hiredis_cluster.Process.{
  ProcessState, moved, ask, process_result, parse_host_port, address_at, mentions_clusterdown,
}
use cpp_hiredis_cluster.Container.{
  DefaultContainer, insert_host, search_by_slots, step_back, check_node,
}
use cpp_hiredis_cluster.Container.Interface.{default_container}
use cpp_hiredis_cluster.Cluster.{
  Cluster, get_connection, serve_slot, on_container, create_new_connection, release_slot,
  release_host, set_moved,
}
use cpp_hiredis_cluster.Command.{process, alt_command, delete_reply}
use cpp_hiredis_cluster.Command.Served.{Redirected}
use cpp_hiredis_cluster.Command.Followed.{process-moved, process-asked, delete_reply-alt_command}
use cpp_hiredis_cluster.Command.Lost.{process-failed_ask}
use cpp_hiredis_cluster.Examples.Outside.{network, quiet}
use cpp_hiredis_cluster.Examples.Commands.{first_node, ignore}

abbrev with_address : ℕ → Option Reply → Option RedisReply
with_address address none = none
with_address address (some value) = some (record { address = address; value = value })

-- Node 7000 answers with `error`; node 7001 with `second`, or breaks.
abbrev broken_network : Text → Option Reply → Hiredis ℕ
broken_network error second = record network {
  request = λ con cmd e. (
    if con == 7000
        then some (record { address = e; value = Reply.error error })
        else with_address e second,
    e + 1,
  );
}

abbrev ask_text : Text
ask_text = codes "ASK 12182 127.0.0.1:7001"

abbrev moved_text : Text
moved_text = codes "MOVED 12182 127.0.0.1:7001"

-- The run up to the second node.
unfoldable redirected_run :
    (error : Text) (second : Option Reply) (state : ProcessState)
    → process_result (Reply.error error)
      ≡ ok (record { state = state; host = codes "127.0.0.1"; port = codes "7001" })
    → mentions_clusterdown error ≡ false
    → Redirected
        (broken_network error second)
        (default_container (broken_network error second))
        ignore
        (codes "foo")
        (codes "GET foo")
        state
        first_node
        quiet
unfolding slot_by_key crc16 crc16tab scan low_14_bits get_connection serve_slot on_container
    Container.get_connection search_by_slots step_back check_node lower_bound release_slot
    create_new_connection insert_host open_connection map_at stoi c_string is_usable map_insert
    text_ltb
redirected_run error second state understood up = record {
  first = record {
    con = (record { first = 0; second = 16383 }, 7000);
    address = 0;
    value = Reply.error error;
    p = record { state = state; host = codes "127.0.0.1"; port = codes "7001" };
    cl₁ = first_node;
    cl₂ = first_node;
    w₁ = quiet;
    w₃ = record { outside = 1; log = received 0 ∷ [] };
    served = refl;
    answered = refl;
    unbroken = refl;
    up = up;
    released = refl;
    understood = understood;
    state_is = refl;
  };
  name = codes "127.0.0.1:7001";
  new = 7001;
  cl₃ = record first_node {
    container = record first_node.container { connections = (codes "127.0.0.1:7001", 7001) ∷ [] };
  };
  w₅ = record { outside = 1; log = opened 7001 ∷ (freed 0 ∷ (received 0 ∷ [])) };
  connected = refl;
  usable = refl;
}

ask_understood :
    process_result (Reply.error ask_text)
    ≡ ok (record { state = ask; host = codes "127.0.0.1"; port = codes "7001" })
unfolding process_result parse_host_port address_at size_add size_sub find_char find substr
    starts_with
ask_understood = refl

moved_understood :
    process_result (Reply.error moved_text)
    ≡ ok (record { state = moved; host = codes "127.0.0.1"; port = codes "7001" })
unfolding process_result parse_host_port address_at size_add size_sub find_char find substr
    starts_with
moved_understood = refl

ask_up : mentions_clusterdown ask_text ≡ false
unfolding mentions_clusterdown find c_string
ask_up = refl

moved_up : mentions_clusterdown moved_text ≡ false
unfolding mentions_clusterdown find c_string
moved_up = refl

abbrev refusal : Option Reply
refusal = some (Reply.error (codes "ERR unknown command"))

process-failed_ask_example :
    (process
      (broken_network ask_text refusal)
      (default_container (broken_network ask_text refusal))
      ignore
      (codes "foo")
      (codes "GET foo")
      first_node
      quiet).0
    ≡ throw (logic_error [])
unfolding redirected_run
process-failed_ask_example =
    process-failed_ask (broken_network ask_text refusal)
      (default_container (broken_network ask_text refusal)) ignore (codes "foo") (codes "GET foo")
      first_node quiet (redirected_run ask_text refusal ask ask_understood ask_up)
      (some (1, codes "ERR unknown command")) refl

abbrev connected_node : Cluster DefaultContainer
connected_node = record first_node {
  container = record first_node.container { connections = (codes "127.0.0.1:7001", 7001) ∷ [] };
}

abbrev after_moved : Cluster DefaultContainer
after_moved = record connected_node { moved = true }

abbrev done : Option Reply
done = some (Reply.status (codes "OK"))

abbrev moved_world : World ℕ
moved_world = record {
  outside = 2;
  log = received 1 ∷ (opened 7001 ∷ (freed 0 ∷ (received 0 ∷ [])));
}

abbrev lost_world : World ℕ
lost_world = record { outside = 2; log = opened 7001 ∷ (freed 0 ∷ (received 0 ∷ [])) }

process-moved_example :
    process
      (broken_network moved_text done)
      (default_container (broken_network moved_text done))
      ignore
      (codes "foo")
      (codes "GET foo")
      first_node
      quiet
    ≡ (ok (with_address 1 done), after_moved, moved_world)
unfolding redirected_run set_moved release_host on_container
process-moved_example =
    process-moved (broken_network moved_text done)
      (default_container (broken_network moved_text done)) ignore (codes "foo") (codes "GET foo")
      first_node after_moved after_moved quiet moved_world moved_world
      (redirected_run moved_text done moved moved_understood moved_up) (with_address 1 done) refl
      refl refl

abbrev asked_world : World ℕ
asked_world = record {
  outside = 3;
  log = received 2 ∷ (freed 1 ∷ (received 1 ∷ (opened 7001 ∷ (freed 0 ∷ (received 0 ∷ [])))));
}

abbrev ok_at : ℕ → RedisReply
ok_at address = record { address = address; value = Reply.status (codes "OK") }

process-asked_example :
    process
      (broken_network ask_text done)
      (default_container (broken_network ask_text done))
      ignore
      (codes "foo")
      (codes "GET foo")
      first_node
      quiet
    ≡ (ok (some (ok_at 2)), connected_node, asked_world)
unfolding redirected_run release_host on_container
process-asked_example =
    process-asked (broken_network ask_text done) (default_container (broken_network ask_text done))
      ignore (codes "foo") (codes "GET foo") first_node connected_node quiet asked_world
      (redirected_run ask_text done ask ask_understood ask_up) (ok_at 1) (ok_at 2) refl refl refl
      refl refl

delete_reply-alt_command_example :
    (after
      (delete_reply
        (broken_network moved_text none)
        (default_container (broken_network moved_text none))
        ignore)
      (alt_command
        (broken_network moved_text none)
        (default_container (broken_network moved_text none))
        ignore
        true
        (codes "foo")
        (codes "GET foo")
        first_node
        quiet)).0
    ≡ fault
unfolding redirected_run set_moved release_host on_container
delete_reply-alt_command_example =
    delete_reply-alt_command (broken_network moved_text none)
      (default_container (broken_network moved_text none)) ignore (codes "foo") (codes "GET foo")
      first_node after_moved after_moved quiet lost_world lost_world
      (redirected_run moved_text none moved moved_understood moved_up) refl refl refl
