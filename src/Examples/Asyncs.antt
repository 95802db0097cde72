-- ===== src/Examples/Asyncs.antt =====
-- Asynchronous commands on a cluster that redirects, and on one that is not ready.
use cpp_hiredis_cluster.Base.{ℕ, ◌+◌, inl, refl, true, false, [], none, some, arith}
use cpp_hiredis_cluster.Text.{Text, codes}
use cpp_hiredis_cluster.Effect.Reply.{Reply, RedisReply}
use cpp_hiredis_cluster.Effect.Reply
use cpp_hiredis_cluster.Container.{DefaultContainer}
use cpp_hiredis_cluster.Container.Interface.{default_container}
use cpp_hiredis_cluster.Container.Hosts.{NeverNull}
use cpp_hiredis_cluster.Process.{Processed, moved}
use cpp_hiredis_cluster.Async.{retried, AsyncCalls, AsyncState}
use cpp_hiredis_cluster.Async.Steady.{Ran, IsQuiet}
use cpp_hiredis_cluster.Async.Containers.{default_container-Connects, get_connection-Quiet}
use cpp_hiredis_cluster.Async.Callbacks.{process_command_reply, run_redis_callback}
use cpp_hiredis_cluster.Async.Callbacks.Settled.{
  Settled, process_command_reply-Settled, run_redis_callback-Settled,
}
use cpp_hiredis_cluster.Async.Callbacks.Handler.{error_handler}
use cpp_hiredis_cluster.Async.Create.{command}
use cpp_hiredis_cluster.Async.Create.Sent.{Made, command-Made}
use cpp_hiredis_cluster.Examples.Keys.{slot_foo}
use cpp_hiredis_cluster.Examples.Outside.{network, quiet}
use cpp_hiredis_cluster.Examples.Commands.{ready_cluster, ignore}

-- Every request is accepted; the state counts them.
abbrev calls : AsyncCalls ℕ
calls = record {
  submit = λ con text e. (true, e + 1);
  subscribed = λ con e. false;
  disconnect_async = λ con e. e;
  user_error = λ fn x state e. (retried, e);
  user_reply = λ value e. e;
}

abbrev waiting : AsyncState DefaultContainer
waiting = record {
  cluster = ready_cluster;
  command = record {
    has_callback = true;
    user_error_cb = some 0;
    con = none;
    key = codes "foo";
    cmd = codes "SET foo bar";
    alive = true;
  };
}

network-NeverNull : NeverNull network
network-NeverNull host port e = inl (_, refl)

ignore-IsQuiet : IsQuiet ignore
ignore-IsQuiet fn cl w = (tt, refl)

abbrev moved_reply : RedisReply
moved_reply = record { address = 5; value = Reply.Reply.error (codes "MOVED 12182 127.0.0.1:7001") }

process_command_reply-Settled_example : Ran true (some 0) [] (Settled calls true [] 7000) (
    process_command_reply network calls
      (default_container network)
      ignore
      7000
      (some moved_reply)
      waiting
      quiet)
process_command_reply-Settled_example =
    process_command_reply-Settled network calls (default_container network) ignore
      (default_container-Connects network network-NeverNull) ignore-IsQuiet 7000 moved_reply waiting
      quiet refl (omega arith)

abbrev asked : AsyncState DefaultContainer
asked = record waiting { command = record waiting.command { con = some 7001 } }

abbrev ok_reply : RedisReply
ok_reply = record { address = 6; value = Reply.Reply.status (codes "OK") }

run_redis_callback-Settled_example : Ran true (some 0) [] (Settled calls true [] 7001) (
    run_redis_callback network calls
      (default_container network)
      ignore
      7001
      (some ok_reply)
      asked
      quiet)
run_redis_callback-Settled_example =
    run_redis_callback-Settled network calls (default_container network) ignore
      (default_container-Connects network network-NeverNull) ignore-IsQuiet 7001 ok_reply 7001 asked
      quiet refl refl

-- The calls of `calls`, with the error callback of the example; what it writes is counted too.
abbrev handled_calls : AsyncCalls ℕ
handled_calls = record calls { user_error = λ fn. error_handler (λ text e. e + 1) [] }

command-Made_example : Made [] (
    command network calls
      (default_container network)
      ignore
      true
      true
      (codes "foo")
      (codes "SET foo bar")
      waiting
      quiet)
command-Made_example =
    command-Made network calls (default_container network) ignore true (codes "foo")
      (codes "SET foo bar") waiting quiet
      (λ cl w. get_connection-Quiet network (codes "foo") 12182 cl w slot_foo)

-- The command has asked node 7001 before, and is sent to node 7002 now.
abbrev linked : AsyncState DefaultContainer
linked = record asked { cluster = record ready_cluster { user_moved_fn = none } }

abbrev second_moved : Text
second_moved = codes "MOVED 12182 127.0.0.1:7002"

abbrev second_reply : RedisReply
second_reply = record { address = 7; value = Reply.Reply.error second_moved }

abbrev second_processed : Processed
second_processed = record { state = moved; host = codes "127.0.0.1"; port = codes "7002" }
