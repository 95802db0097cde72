-- ===== src/Pool/Disconnect/Closing.antt =====
-- When `disconnect()` of the pool comes back, and what it has closed then.
use cpp_hiredis_cluster.Base.{
  ℕ, zero, suc, ◌+◌, ◌≤◌, ◌≡◌, refl, ap, ◌∙◌, Bool, true, false, List, [], ◌∷◌, Option, none, some,
  length, arith, ◌==◌, if◌then◌else◌,
}
use cpp_hiredis_cluster.Effect.Monad.{Outcome, ok, Conn, Hiredis, World, Action, after}
use cpp_hiredis_cluster.Text.{Text}
use cpp_hiredis_cluster.Container.Types.{SlotRange}
use cpp_hiredis_cluster.Effect.Calls.{close_connection}
use cpp_hiredis_cluster.Container.Close.{times_closed}
use cpp_hiredis_cluster.Pool.{pool_size, Pools, ThreadedPool, pull, on_nodes, on_connections}
use cpp_hiredis_cluster.Pool.Disconnect.{
  close_pointer, drain, next_pool, drain_all, clear, disconnect_pools, disconnect,
}

abbrev same : Conn → Option Conn → ℕ
same c none = 0
same c (some d) = if c == d then 1 else 0

-- How often the connection stands in a queue, and in the queues of all pools.
abbrev pub in_queue : {A : Type 0} → (A → Option Conn) → Conn → List A → ℕ
in_queue pointer c [] = 0
in_queue pointer c (x ∷ q) = same c (pointer x) + in_queue pointer c q

abbrev pub in_pools : {K A : Type 0} → (A → Option Conn) → Conn → Pools K A → ℕ
in_pools pointer c [] = 0
in_pools pointer c ((k, none) ∷ m) = in_pools pointer c m
in_pools pointer c ((k, some q) ∷ m) = in_queue pointer c q + in_pools pointer c m

-- Every pool exists and has all its connections: no thread has one.
abbrev pub AllHome : {K A : Type 0} → Pools K A → Type 0
AllHome [] = Unit {0}
AllHome ((k, none) ∷ m) = ⊥
AllHome ((k, some q) ∷ m) = (length q ≡ pool_size) × AllHome m

-- Every pool exists and has at least as many connections as the loop takes.
abbrev pub AllFull : {K A : Type 0} → Pools K A → Type 0
AllFull [] = Unit {0}
AllFull ((k, none) ∷ m) = ⊥
AllFull ((k, some q) ∷ m) = (pool_size ≤ length q) × AllFull m

module _ {E : Type 0} (h : Hiredis E) (close_null : E → E) where
  closed_world : Option Conn → World E → World E
  closed_world none w = record w { outside = close_null w.outside }
  closed_world (some con) w = close_connection h con w

  close_pointer-ok :
      {S : Type 0} (p : Option Conn) (s : S) (w : World E)
      → close_pointer h close_null p s w ≡ (ok tt, s, closed_world p w)
  unfolding close_pointer closed_world
  close_pointer-ok none s w = refl
  close_pointer-ok (some con) s w = refl

  times_closed-closed_world :
      (c : Conn) (p : Option Conn) (w : World E)
      → times_closed c (closed_world p w).log ≡ same c p + times_closed c w.log
  unfolding closed_world close_connection
  times_closed-closed_world c none w = omega arith
  times_closed-closed_world c (some con) w = refl

  module _ {A : Type 0} (pointer : A → Option Conn) where
    drain-ok :
        (n : ℕ) (q : List A) (w : World E)
        → length q ≡ n
        → (w' : World E) × (drain h close_null pointer n q w ≡ (ok tt, [], w'))
          × ((c : Conn) → times_closed c w'.log ≡ in_queue pointer c q + times_closed c w.log)
    unfolding drain pull
    drain-ok zero [] w e = (w, refl, λ c. omega arith)
    drain-ok zero (x ∷ q) w e = absurd (omega arith)
    drain-ok (suc n) [] w e = absurd (omega arith)
    drain-ok (suc n) (x ∷ q) w e =
        let w₁ = closed_world (pointer x) w in
        let (w', done, closes) = drain-ok n q w₁ (omega arith) in
        (
          w',
          ap (after (λ _. drain h close_null pointer n)) (close_pointer-ok (pointer x) q w) ∙ done,
          λ c. omega (arith, closes c, times_closed-closed_world c (pointer x) w),
        )

    module _ {K : Type 0} where
      drain_all-ok :
          (pools : Pools K A) (w : World E)
          → AllHome pools
          → (pools' : Pools K A) × (w' : World E) × (drain_all h close_null pointer pools w
              ≡ (ok tt, pools', w'))
            × ((c : Conn) → times_closed c w'.log ≡ in_pools pointer c pools + times_closed c w.log)
      unfolding drain_all next_pool
      drain_all-ok [] w home = ([], w, refl, λ c. omega arith)
      drain_all-ok ((k, none) ∷ m) w home = absurd home
      drain_all-ok ((k, some q) ∷ m) w home =
          let (w₁, first, closes) = drain-ok pool_size q w home.0 in
          let (m', w', done, others) = drain_all-ok m w₁ home.1 in
          (
            (k, none) ∷ m',
            w',
            ap (next_pool h close_null pointer k m (drain_all h close_null pointer m)) first
                ∙ ap (λ (t : Outcome (Unit {0}) × Pools K A × World E). (t.0, (k, none) ∷ t.1, t.2))
                    done,
            λ c. omega (arith, closes c, others c),
          )

      disconnect_pools-ok :
          (has_disconnect : Bool) (pools : Pools K A) (w : World E)
          → has_disconnect ≡ true
          → AllHome pools
          → (w' : World E) × (disconnect_pools h close_null pointer has_disconnect pools w
              ≡ (ok tt, [], w'))
            × ((c : Conn) → times_closed c w'.log ≡ in_pools pointer c pools + times_closed c w.log)
      unfolding disconnect_pools clear
      disconnect_pools-ok true pools w e home =
          let (pools', w', done, closes) = drain_all-ok pools w home in
          (w', ap (after (λ _. clear h close_null pointer)) done, closes)
      disconnect_pools-ok false pools w e home = cc

  -- If the pool has a disconnect function, and every pool of both maps exists and has exactly ten
  -- connections, then `disconnect()` returns. It has emptied both maps and closed every connection
  -- as often as the pools held it, and no other.
  pub disconnect-AllHome :
      (s : ThreadedPool) (w : World E)
      → s.has_disconnect ≡ true
      → AllHome s.nodes
      → AllHome s.connections
      → (w' : World E) × (disconnect h close_null s w
          ≡ (ok tt, record s { nodes = []; connections = [] }, w'))
        × ((c : Conn)
            → times_closed c w'.log
              ≡ in_pools some c s.nodes
                + in_pools (λ con. con) c s.connections
                + times_closed c w.log)
  unfolding disconnect on_nodes on_connections
  disconnect-AllHome s w has nodes_home hosts_home =
      let (w₁, first, closes) =
        disconnect_pools-ok some s.has_disconnect s.nodes w has nodes_home in
      let (w', second, others) =
        disconnect_pools-ok (λ con. con) s.has_disconnect s.connections w₁ has hosts_home in
      let hosts : Action ThreadedPool E (Unit {0}) =
        on_connections (disconnect_pools h close_null (λ con. con) s.has_disconnect) in
      (
        w',
        ap
              (λ (t : Outcome (Unit {0}) × Pools SlotRange Conn × World E).
                after (λ _. hosts) (t.0, record s { nodes = t.1 }, t.2))
              first
            ∙ ap
                (λ (t : Outcome (Unit {0}) × Pools Text (Option Conn) × World E).
                  (t.0, record s { nodes = []; connections = t.1 }, t.2))
                second,
        λ c. omega (arith, closes c, others c),
      )
