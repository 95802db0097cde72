-- ===== src/Examples/Sockets.antt =====
-- src/examples/unixsocketexample.cpp: the table of the example, and its nodes.
use cpp_hiredis_cluster.Base.{
  ℕ, true, List, [], ◌∷◌, ◌++◌, Option, some, ◌≡◌, ◌≢◌, refl, arith, length,
}
use cpp_hiredis_cluster.Base.Search.{Avoids-index_of, index_of}
use cpp_hiredis_cluster.Int.{pos}
use cpp_hiredis_cluster.Text.{Text, codes, c_string, text_ltb}
use cpp_hiredis_cluster.Text.Stoi.Decimal.{to_string}
use cpp_hiredis_cluster.Effect.Monad.{ok, opened, Conn}
use cpp_hiredis_cluster.Container.OrderedMap.{map_at, map_insert}
use cpp_hiredis_cluster.Container.{DefaultContainer, insert_host}
use cpp_hiredis_cluster.Socket.{SocketTable, config, read_lines, read_config, with_sockets}
use cpp_hiredis_cluster.Socket.Config.{AreEntries, IsEntry, print_config, read_config-print_config}
use cpp_hiredis_cluster.Socket.Redirect.{insert_host-with_sockets}
use cpp_hiredis_cluster.Examples.Keys.{three_nodes}
use cpp_hiredis_cluster.Examples.Outside.{network, quiet}

-- A socket for node 7000, named twice.
abbrev entries : List (Text × Text)
entries =
    (codes ":7000", codes "/tmp/a")
    ∷ (codes ":7001", codes "/tmp/b")
    ∷ (codes ":7000", codes "/tmp/c")
    ∷ []

is_entry :
    (key value : Text)
    → index_of b'=' key ≡ length key
    → index_of b'\n' key ≡ length key
    → index_of b'\n' value ≡ length value
    → value ≢ []
    → IsEntry (key, value)
is_entry key value a b c d =
    (Avoids-index_of b'=' key a, Avoids-index_of b'\n' key b, Avoids-index_of b'\n' value c, d)

entries-AreEntries : AreEntries entries
unfolding index_of
entries-AreEntries = (
  is_entry (codes ":7000") (codes "/tmp/a") refl refl refl (λ e. cc),
  (
    is_entry (codes ":7001") (codes "/tmp/b") refl refl refl (λ e. cc),
    (is_entry (codes ":7000") (codes "/tmp/c") refl refl refl (λ e. cc), tt),
  ),
)

read_config-print_config_example :
    map_at text_ltb (codes ":7000") (read_config (print_config entries)) ≡ some (codes "/tmp/a")
read_config-print_config_example =
    read_config-print_config entries (codes ":7000") entries-AreEntries

-- The table of the example.
abbrev example_table : SocketTable
example_table =
    (codes "127.0.0.1:7000", codes "/tmp/redis0.sock")
    ∷ (codes "127.0.0.1:7001", codes "/tmp/redis1.sock")
    ∷ (codes "127.0.0.1:7002", codes "/tmp/redis2.sock")
    ∷ []

read_config-config : read_config config ≡ example_table
unfolding read_config read_lines map_insert text_ltb
read_config-config = refl

-- Every socket opens as connection 5.
abbrev unix_five : Text → ℕ → Option Conn × ℕ
unix_five file e = (some 5, e)

abbrev empty_container : DefaultContainer
empty_container = record { has_disconnect = true; connections = []; nodes = three_nodes }

insert_host-with_sockets_example :
    insert_host
      (with_sockets unix_five example_table network)
      (codes "127.0.0.1")
      (to_string (pos 7001))
      empty_container
      quiet
    ≡ (
      ok (codes "127.0.0.1" ++ (codes ":" ++ to_string (pos 7001)), some 5),
      record empty_container {
        connections = (codes "127.0.0.1" ++ (codes ":" ++ to_string (pos 7001)), 5) ∷ [];
      },
      record quiet { log = opened 5 ∷ [] },
    )
unfolding to_string map_at text_ltb c_string map_insert
insert_host-with_sockets_example =
    insert_host-with_sockets unix_five example_table network (codes "127.0.0.1") (pos 7001)
      empty_container quiet (omega arith) refl refl
