-- ===== src/Socket/Redirect.antt =====
-- Redirections to hosts that the table of sockets names.
use cpp_hiredis_cluster.Base.{
  ◌∷◌, ◌++◌, ◌≡◌, refl, sym, ap, ◌∙◌, Option-cases, Option, none, some, if◌then◌else◌, Bool-cases,
  inl, inr,
}
use cpp_hiredis_cluster.Int.{ℤ}
use cpp_hiredis_cluster.Text.{Text, codes, c_string, text_ltb}
use cpp_hiredis_cluster.Text.Stoi.Decimal.{to_string, IsInt, stoi-to_string}
use cpp_hiredis_cluster.Effect.Monad.{Outcome, ok, opened, Conn, Hiredis, World}
use cpp_hiredis_cluster.Effect.Calls.{open_connection, is_usable, log_opened}
use cpp_hiredis_cluster.Container.Types.{HostConnection}
use cpp_hiredis_cluster.Container.OrderedMap.{map_at, map_insert}
use cpp_hiredis_cluster.Container.{
  DefaultContainer, insert_host, connect_host, store_host, parsed_port,
}
use cpp_hiredis_cluster.Socket.{SocketTable, custom_redis_connect, with_sockets}

module _ {E : Type 0} (connect_unix : Text → E → Option Conn × E) (table : SocketTable)
    (base : Hiredis E) where
  abbrev h : Hiredis E
  h = with_sockets connect_unix table base

  abbrev address : Text → ℤ → Text
  address host port = host ++ (codes ":" ++ to_string port)

  module _ (host : Text) (port : ℤ) (s : DefaultContainer) (w : World E) (fits : IsInt port)
      (whole : c_string host ≡ host)
      (new_host : map_at text_ltb (address host port) s.connections ≡ none) where
    insert_host_unlisted :
        map_at text_ltb (address host port) table ≡ none
        → insert_host h host (to_string port) s w ≡ (ok (address host port, none), s, w)
    unfolding insert_host connect_host open_connection custom_redis_connect parsed_port store_host
        log_opened is_usable
    insert_host_unlisted unlisted =
        rw (new_host, insert_host, stoi-to_string port fits, whole, unlisted, custom_redis_connect)
          refl

    insert_host_listed :
        (file : Text) (con : Conn) (e : E)
        → map_at text_ltb (address host port) table ≡ some file
        → connect_unix (c_string file) w.outside ≡ (some con, e)
        → insert_host h host (to_string port) s w ≡ (
          ok (address host port, some con),
          if base.has_error con e then s else record s {
            connections = map_insert text_ltb (address host port) con s.connections;
          },
          record { outside = e; log = opened con ∷ w.log },
        )
    unfolding insert_host connect_host open_connection custom_redis_connect parsed_port store_host
        log_opened is_usable
    insert_host_listed file con e listed opens =
        rw
          (
            new_host,
            insert_host,
            stoi-to_string port fits,
            whole,
            listed,
            custom_redis_connect,
            opens,
          )
          (elim (Bool-cases (base.has_error con e)) [
            | inl broken ↦ rw broken refl
            | inr sound ↦ rw sound refl
          ])

    insert_host_refused :
        (file : Text) (e : E)
        → map_at text_ltb (address host port) table ≡ some file
        → connect_unix (c_string file) w.outside ≡ (none, e)
        → insert_host h host (to_string port) s w
          ≡ (ok (address host port, none), s, record w { outside = e })
    unfolding insert_host connect_host open_connection custom_redis_connect parsed_port store_host
        log_opened is_usable
    insert_host_refused file e listed refuses =
        rw
          (
            new_host,
            insert_host,
            stoi-to_string port fits,
            whole,
            listed,
            custom_redis_connect,
            refuses,
          )
          refl

    -- What a socket's connection leads to: it is kept under the key if it has no error.
    abbrev pub kept : Option Conn × E → Outcome HostConnection × DefaultContainer × World E
    kept (none, e) = (ok (address host port, none), s, record w { outside = e })
    kept (some con, e) = (
      ok (address host port, some con),
      if base.has_error con e
          then s
          else record s { connections = map_insert text_ltb (address host port) con s.connections },
      record { outside = e; log = opened con ∷ w.log },
    )

    -- An address that is not listed opens nothing.
    abbrev pub expected : Option Text → Outcome HostConnection × DefaultContainer × World E
    expected none = (ok (address host port, none), s, w)
    expected (some file) = kept (connect_unix (c_string file) w.outside)

    opened_as :
        (file : Text) (r : Option Conn × E)
        → map_at text_ltb (address host port) table ≡ some file
        → connect_unix (c_string file) w.outside ≡ r
        → insert_host h host (to_string port) s w ≡ kept r
    opened_as file (none, e) listed opens = insert_host_refused file e listed opens
    opened_as file (some con, e) listed opens = insert_host_listed file con e listed opens

    -- A redirection to a host and a port that the container has no connection to, over the connect
    -- function of the sockets: if the table lists no such address, then nothing is opened and a null
    -- pointer comes back; if it does, then `redisConnectUnix` is called with the file of this line,
    -- its pointer comes back, and a connection without an error is kept under the same key. This is
    -- for a host without a zero byte and a port written as `std::to_string` writes an `int`.
    pub insert_host-with_sockets :
        insert_host h host (to_string port) s w
        ≡ expected (map_at text_ltb (address host port) table)
    insert_host-with_sockets = elim (Option-cases (map_at text_ltb (address host port) table)) [
      | inl unlisted ↦ insert_host_unlisted unlisted ∙ ap expected (sym unlisted)
      | inr (file, listed) ↦ opened_as file _ listed refl ∙ ap expected (sym listed)
    ]
