-- ===== src/Container/Close.antt =====
-- `disconnect()`: which connections are closed, and how often.
use cpp_hiredis_cluster.Base.{
  ℕ, ◌+◌, Bool, true, false, List, [], ◌∷◌, ◌≡◌, refl, ap, ◌∙◌, ◌==◌, if◌then◌else◌, arith,
}
use cpp_hiredis_cluster.Effect.Monad.{
  Conn, Event, opened, closed, received, freed, created, destroyed, submitted, answered, Hiredis,
  World,
}
use cpp_hiredis_cluster.Effect.Calls.{close_all, close_connection}
use cpp_hiredis_cluster.Text.{Text}
use cpp_hiredis_cluster.Container.Types.{SlotRange}
use cpp_hiredis_cluster.Container.{DefaultContainer, disconnect}

-- How often the log closes the connection.
abbrev pub times_closed : Conn → List Event → ℕ
times_closed c [] = 0
times_closed c (closed d ∷ log) = (if c == d then 1 else 0) + times_closed c log
times_closed c (opened d ∷ log) = times_closed c log
times_closed c (received a ∷ log) = times_closed c log
times_closed c (freed a ∷ log) = times_closed c log
times_closed c (created ∷ log) = times_closed c log
times_closed c (destroyed ∷ log) = times_closed c log
times_closed c (submitted d ∷ log) = times_closed c log
times_closed c (answered ∷ log) = times_closed c log

-- How often a map holds the connection.
abbrev pub times_held {ℓ} : {K : Type ℓ} → Conn → List (K × Conn) → ℕ
times_held c [] = 0
times_held c ((k, d) ∷ m) = (if c == d then 1 else 0) + times_held c m

module _ {E : Type 0} (h : Hiredis E) where
  times_closed-close_all :
      {K : Type 0} (c : Conn) (m : List (K × Conn)) (w : World E)
      → times_closed c (close_all h m w).log ≡ times_held c m + times_closed c w.log
  unfolding close_all close_connection
  times_closed-close_all c [] w = omega arith
  times_closed-close_all c ((k, d) ∷ m) w =
      let rest = times_closed-close_all c m (close_connection h d w) in omega (arith, rest)

  -- The two passes over the maps, as `disconnect` makes them.
  abbrev closing : Bool → List (SlotRange × Conn) → List (Text × Conn) → World E → World E
  closing true nodes connections w = close_all h connections (close_all h nodes w)
  closing false nodes connections w = w

  closing-twice :
      (c : Conn) (has_disconnect : Bool) (nodes : List (SlotRange × Conn))
      (connections : List (Text × Conn)) (w : World E)
      → times_closed c
          (closing has_disconnect [] [] (closing has_disconnect nodes connections w)).log
        ≡ (if has_disconnect then times_held c nodes + times_held c connections else 0)
          + times_closed c w.log
  unfolding close_all
  closing-twice c true nodes connections w =
      let first = times_closed-close_all c nodes w in
      let second = times_closed-close_all c connections (close_all h nodes w) in
      omega (arith, first, second)
  closing-twice c false nodes connections w = omega arith

  disconnect-closing :
      (has_disconnect : Bool) (nodes : List (SlotRange × Conn)) (connections : List (Text × Conn))
      (w : World E)
      → (disconnect h
          (record { has_disconnect = has_disconnect; connections = connections; nodes = nodes })
          w).2
        ≡ closing has_disconnect nodes connections w
  unfolding disconnect
  disconnect-closing true nodes connections w = refl
  disconnect-closing false nodes connections w = refl

  -- With a disconnect function, `disconnect()` followed by the destructor, which calls it again,
  -- closes every connection as often as the two maps held it, and no other; without one, none.
  pub disconnect_twice :
      (c : Conn) (s : DefaultContainer) (w : World E)
      → times_closed c (disconnect h (disconnect h s w).1 (disconnect h s w).2).2.log
        ≡ (if s.has_disconnect then times_held c s.nodes + times_held c s.connections else 0)
          + times_closed c w.log
  unfolding disconnect
  disconnect_twice c s w =
      ap (λ (v : World E). times_closed c v.log)
        (disconnect-closing s.has_disconnect [] [] (disconnect h s w).2
          ∙ ap (closing s.has_disconnect [] [])
              (disconnect-closing s.has_disconnect s.nodes s.connections w))
      ∙ closing-twice c s.has_disconnect s.nodes s.connections w
