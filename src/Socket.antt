-- ===== src/Socket.antt =====
-- src/examples/unixsocketexample.cpp: a connect function that looks unix sockets up in a table.
pub mod Config
pub mod Redirect
use cpp_hiredis_cluster.Base.{
  ℕ, zero, suc, List, [], ◌∷◌, ◌++◌, Option, none, some, ◌==◌, if◌then◌else◌, length,
}
use cpp_hiredis_cluster.Int.{ℤ}
use cpp_hiredis_cluster.Text.{Text, codes, c_string, text_ltb}
use cpp_hiredis_cluster.Text.Stoi.Decimal.{to_string}
use cpp_hiredis_cluster.Effect.Monad.{Outcome, ok, Conn, Hiredis}
use cpp_hiredis_cluster.Container.OrderedMap.{map_at, map_insert}

abbrev pub SocketTable : Type 0
SocketTable = List (Text × Text)

abbrev pub config : Text
config =
    codes "127.0.0.1:7000=/tmp/redis0.sock\n"
    ++ (codes "127.0.0.1:7001=/tmp/redis1.sock\n" ++ codes "127.0.0.1:7002=/tmp/redis2.sock\n")

-- What `std::getline` takes from a stream, and what it leaves: the delimiter is taken and dropped.
up_to : ℕ → Text → Text
up_to delim [] = []
up_to delim (x ∷ s) = if x == delim then [] else x ∷ up_to delim s

behind : ℕ → Text → Text
behind delim [] = []
behind delim (x ∷ s) = if x == delim then s else behind delim s

-- It fails where nothing is left.
getline : ℕ → Text → Option (Text × Text)
unfolding up_to behind
getline delim [] = none
getline delim (x ∷ s) = some (up_to delim (x ∷ s), behind delim (x ∷ s))

add_value : Text → Option (Text × Text) → SocketTable → SocketTable
add_value key none table = table
add_value key (some (value, rest)) table = map_insert text_ltb key value table

add_key : Option (Text × Text) → SocketTable → SocketTable
unfolding add_value getline
add_key none table = table
add_key (some (key, rest)) table = add_value key (getline b'\n' rest) table

-- The loop; each line takes a byte at least, so that as many rounds as bytes are enough.
unfoldable pub read_lines : ℕ → Text → SocketTable → SocketTable
unfolding getline add_key
read_lines zero text table = table
read_lines (suc rounds) text table = elim (getline b'\n' text) [
  | none ↦ table
  | some (line, rest) ↦ read_lines rounds rest (add_key (getline b'=' line) table)
]

unfoldable pub read_config : Text → SocketTable
read_config text = read_lines (length text) text []

-- `redisConnectUnix` is a parameter; an unknown address gives a null pointer.
module _ {E : Type 0} (connect_unix : Text → E → Option Conn × E) where
  unfoldable pub custom_redis_connect : SocketTable → Text → ℤ → E → Outcome (Option Conn) × E
  custom_redis_connect table ip port e =
      elim (map_at text_ltb (ip ++ (codes ":" ++ to_string port)) table) [
        | none ↦ (ok none, e)
        | some filename ↦ let (ctx, e') = connect_unix (c_string filename) e in (ok ctx, e')
      ]

  -- What the cluster is given: the table, and `redisFree` as before.
  abbrev pub with_sockets : SocketTable → Hiredis E → Hiredis E
  with_sockets table h = record h { connect = custom_redis_connect table }
