-- ===== src/Examples/Outside.antt =====
-- A small world: connections are numbered by their port, and node 7000 redirects to node 7001.
use cpp_hiredis_cluster.Base.{ℕ, ◌+◌, false, [], some, ◌==◌, if◌then◌else◌}
use cpp_hiredis_cluster.Int.{ℤ, pos, negsuc}
use cpp_hiredis_cluster.Text.{codes}
use cpp_hiredis_cluster.Effect.Reply.{Reply}
use cpp_hiredis_cluster.Effect.Monad.{ok, Conn, Hiredis, World}

abbrev pub port_conn : ℤ → Conn
port_conn (pos n) = n
port_conn (negsuc n) = 0

abbrev pub answer : Conn → Reply
answer con =
    if con == 7000
    then Reply.error (codes "MOVED 12182 127.0.0.1:7001")
    else Reply.status (codes "OK")

-- The state counts the replies, and so gives each its own address.
abbrev pub network : Hiredis ℕ
network = record {
  connect = λ host port e. (ok (some (port_conn port)), e);
  has_error = λ con e. false;
  error_text = λ con e. [];
  close = λ con e. e;
  dial = λ host port e. (some (port_conn port), e);
  free_context = λ con e. e;
  request = λ con cmd e. (some (record { address = e; value = answer con }), e + 1);
}

abbrev pub quiet : World ℕ
quiet = record { outside = 0; log = [] }
