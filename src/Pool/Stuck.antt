-- ===== src/Pool/Stuck.antt =====
-- A host that cannot be reached: the pool that was made for it stays, empty.
use cpp_hiredis_cluster.Base.{
  ℕ, suc, ◌≡◌, refl, ap, ◌∙◌, false, List, [], ◌∷◌, ◌++◌, Option, none, some, arith,
}
use cpp_hiredis_cluster.Int.{ℤ}
use cpp_hiredis_cluster.Text.{Text, codes, c_string, text_ltb}
use cpp_hiredis_cluster.Text.Stoi
use cpp_hiredis_cluster.Text.Stoi.{stoi}
use cpp_hiredis_cluster.Effect.Exception.{connection_failed}
use cpp_hiredis_cluster.Effect.Monad.{
  Outcome, ok, throw, blocked, Conn, Hiredis, World, Action, after, after-blocked, pure, ◌>>=◌,
}
use cpp_hiredis_cluster.Effect.Calls.{open_connection, is_usable, log_opened}
use cpp_hiredis_cluster.Container.{parsed_port}
use cpp_hiredis_cluster.Container.Types.{HostConnection}
use cpp_hiredis_cluster.Container.OrderedMap.{map_at, map_set}
use cpp_hiredis_cluster.Pool.{
  pool_size, Pools, ThreadedPool, run_at, at_pool, pull, new_pool, on_connections, push_usable,
  fill_pool, known_host, new_host, found_host, insert_host,
}
use cpp_hiredis_cluster.Pool.Lists.{map_at-map_set_self, map_set-map_set_self}

text_ltb_self : (t : Text) → text_ltb t t ≡ false
unfolding text_ltb
text_ltb_self [] = refl
text_ltb_self (x ∷ t) = ground (arith, text_ltb_self t)

abbrev pub host_key : Text → Text → Text
host_key host port = host ++ (codes ":" ++ port)

module _ {E : Type 0} (h : Hiredis E) (host port : Text) (number : ℤ) where
  abbrev key : Text
  key = host_key host port

  -- The pool of the host holds no connection.
  abbrev pub with_empty : ThreadedPool → ThreadedPool
  with_empty s = record s { connections = map_set text_ltb key (some []) s.connections }

  module _ (parsed : stoi port ≡ Stoi.Parsed.value number)
      (unreachable : (e : E) → (h.connect (c_string host) number e).0 ≡ ok none) where
    -- The world behind one attempt to connect.
    abbrev pub tried : World E → World E
    tried w = record { outside = (h.connect (c_string host) number w.outside).1; log = w.log }

    fill_pool-unreachable :
        (n : ℕ) (q : List (Option Conn)) (w : World E)
        → fill_pool h some (suc n) (c_string host) number q w
          ≡ (throw connection_failed, q, tried w)
    unfolding fill_pool open_connection push_usable is_usable log_opened
    fill_pool-unreachable n q w = rw (unreachable w.outside) refl

    at_empty :
        (found : Option (Option (List (Option Conn)))) (pools : Pools Text (Option Conn))
        (w : World E)
        → found ≡ some (some [])
        → run_at text_ltb key (fill_pool h some pool_size (c_string host) number) found pools w
          ≡ (throw connection_failed, map_set text_ltb key (some []) pools, tried w)
    unfolding run_at
    at_empty found pools w e =
        ap (λ f. run_at text_ltb key (fill_pool h some pool_size (c_string host) number) f pools w)
          e
        ∙ ap
            (λ (t : Outcome (Unit {0}) × List (Option Conn) × World E).
              (t.0, map_set text_ltb key (some t.1) pools, t.2))
            (fill_pool-unreachable 9 [] w)

    new_host-unreachable :
        (s : ThreadedPool) (w : World E)
        → new_host h key host port s w ≡ (throw connection_failed, with_empty s, tried w)
    unfolding new_host on_connections new_pool at_pool parsed_port
    new_host-unreachable s w =
        let there = map_at-map_set_self text_ltb key (some []) s.connections (text_ltb_self key) in
        let ending : Unit {0} → Action ThreadedPool E HostConnection =
          λ done. on_connections (at_pool text_ltb key pull) >>= λ con. pure (key, con) in
        let filling : ℤ → Action ThreadedPool E HostConnection = λ n.
          on_connections (at_pool text_ltb key (fill_pool h some pool_size (c_string host) n))
          >>= ending in
        ap (λ p. after filling (parsed_port p, with_empty s, w)) parsed
        ∙ ap
            (λ (t : Outcome (Unit {0}) × Pools Text (Option Conn) × World E).
              after ending (t.0, record s { connections = t.1 }, t.2))
            (at_empty _ (with_empty s).connections w there)
        ∙ ap (λ m. (throw connection_failed, record s { connections = m }, tried w))
            (map_set-map_set_self text_ltb key (some []) (some []) s.connections
              (text_ltb_self key))

    known_host-none :
        (found : Option (Option (List (Option Conn)))) (s : ThreadedPool) (w : World E)
        → found ≡ none
        → known_host h key found s w ≡ (ok none, s, w)
    unfolding known_host
    known_host-none none s w e = refl
    known_host-none (some p) s w e = cc

    known_host-empty :
        (found : Option (Option (List (Option Conn)))) (s : ThreadedPool) (w : World E)
        → found ≡ some (some [])
        → map_at text_ltb key s.connections ≡ some (some [])
        → (known_host h key found s w).0 ≡ blocked
    unfolding known_host on_connections at_pool pull run_at
    known_host-empty none s w e there = cc
    known_host-empty (some p) s w e there =
        ap (λ f. (run_at text_ltb key pull f s.connections w).0) there

    -- The first call for a host that has no pool, and whose connection function returns null
    -- pointers, throws `ConnectionFailedException` and leaves an empty pool behind; in that state a
    -- call for the host waits, in any world.
    pub insert_host-unreachable :
        (s : ThreadedPool) (w w' : World E)
        → map_at text_ltb key s.connections ≡ none
        → (insert_host h host port s w ≡ (throw connection_failed, with_empty s, tried w))
          × ((insert_host h host port (with_empty s) w').0 ≡ blocked)
    unfolding insert_host found_host
    insert_host-unreachable s w w' absent =
        let there = map_at-map_set_self text_ltb key (some []) s.connections (text_ltb_self key) in
        (
          ap (after (found_host h key host port))
                (known_host-none (map_at text_ltb key s.connections) s w absent)
              ∙ new_host-unreachable s w,
          after-blocked (found_host h key host port)
              (known_host h key (map_at text_ltb key (with_empty s).connections) (with_empty s) w')
              (known_host-empty _ (with_empty s) w' there there),
        )
