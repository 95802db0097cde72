-- ===== src/Pool/Threads.antt =====
-- Threads that take connections from one pool and give them back, interleaved in any order. Each
-- call holds the lock from its start to its end.
use cpp_hiredis_cluster.Base.{ℕ, ◌+◌, ◌≤◌, ◌≡◌, refl, ap, ◌∙◌, List, [], ◌∷◌, ◌++◌, arith}
use cpp_hiredis_cluster.Effect.Monad.{ok, Conn, World}
use cpp_hiredis_cluster.Container.Types.{slot_less, SlotConnection}
use cpp_hiredis_cluster.Pool.{ThreadedPool, get_connection, release_slot}
use cpp_hiredis_cluster.Pool.Lists.{count, count-append, stock, stock-map_set}
use cpp_hiredis_cluster.Pool.Borrow.{get_connection-Taken, release_slot-inv}

-- The pool, and the connections that threads have.
pub record Shared : Type 0 where
  pub pool : ThreadedPool
  pub held : List SlotConnection

abbrev pub conns : List SlotConnection → List Conn
conns [] = []
conns ((range, con) ∷ held) = con ∷ conns held

pub data Step (E : Type 0) (s : Shared) : Shared → Type 0 where
  take :
      (index : ℕ) (con : SlotConnection) (pool' : ThreadedPool) (w w' : World E)
      → get_connection index s.pool w ≡ (ok con, pool', w')
      → Step E s (record { pool = pool'; held = con ∷ s.held })
  give :
      (before others : List SlotConnection) (con : SlotConnection) (pool' : ThreadedPool)
      (w w' : World E)
      → s.held ≡ before ++ con ∷ others
      → release_slot con s.pool w ≡ (ok tt, pool', w')
      → Step E s (record { pool = pool'; held = before ++ others })

pub data Reach (E : Type 0) (s : Shared) : Shared → Type 0 where
  here : Reach E s s
  next : {t u : Shared} → Reach E s t → Step E t u → Reach E s u

-- How often the connection is in a pool or with a thread.
abbrev pub total : Conn → Shared → ℕ
total c s = stock c s.pool.nodes + count c (conns s.held)

count-conns :
    (c : Conn) (xs ys : List SlotConnection) (con : SlotConnection)
    → count c (conns (xs ++ con ∷ ys)) ≡ count c (con.1 ∷ []) + count c (conns (xs ++ ys))
count-conns c [] ys con = omega arith
count-conns c ((r, d) ∷ xs) ys con = omega (arith, count-conns c xs ys con)

module _ {E : Type 0} where
  get_connection-stock :
      (c : Conn) (index : ℕ) (con : SlotConnection) (s s' : ThreadedPool) (w w' : World E)
      → get_connection index s w ≡ (ok con, s', w')
      → stock c s'.nodes + count c (con.1 ∷ []) ≡ stock c s.nodes
  get_connection-stock c index con s s' w w' e =
      let (range, p, found, taken) = get_connection-Taken index con s s' w w' e in
      let left = ap (λ (t : ThreadedPool). stock c t.nodes) taken.left in
      let same = ap (λ (t : SlotConnection). count c (t.1 ∷ [])) taken.same in
      let change =
        stock-map_set slot_less c range (taken.first ∷ taken.others) taken.others s.nodes
          taken.there in
      omega (arith, left, same, change)

  release_slot-stock :
      (c : Conn) (con : SlotConnection) (s s' : ThreadedPool) (w w' : World E)
      → release_slot con s w ≡ (ok tt, s', w')
      → stock c s'.nodes ≡ stock c s.nodes + count c (con.1 ∷ [])
  release_slot-stock c con s s' w w' e =
      let (q, there, left) = release_slot-inv con s s' w w' e in
      let left = ap (λ (t : ThreadedPool). stock c t.nodes) left in
      let change = stock-map_set slot_less c con.0 q (q ++ (con.1 ∷ [])) s.nodes there in
      omega (arith, left, change, count-append c q (con.1 ∷ []))

  Step-total : {s t : Shared} (c : Conn) → Step E s t → total c t ≡ total c s
  Step-total {s} c (take index con pool' w w' e) =
      let moved = get_connection-stock c index con s.pool pool' w w' e in omega arith
  Step-total {s} c (give before others con pool' w w' split e) =
      let moved = release_slot-stock c con s.pool pool' w w' e in
      let held = ap (λ l. count c (conns l)) split in
      omega (arith, moved, held, count-conns c before others con)

  -- Whatever threads take and give back, in any order: each connection is in the slots' pools and
  -- with threads exactly as often as at the start.
  Reach-total : {s t : Shared} (c : Conn) → Reach E s t → total c t ≡ total c s
  Reach-total c here = refl
  Reach-total c (next r st) = Step-total c st ∙ Reach-total c r

  -- If the pools hold no connection twice and no thread has one, then no connection is ever with
  -- two threads, nor with one and in a pool.
  pub Reach-exclusive :
      {s t : Shared} (c : Conn)
      → stock c s.pool.nodes ≤ 1
      → s.held ≡ []
      → Reach E s t
      → total c t ≤ 1
  Reach-exclusive {s} c once free r =
      let held = ap (λ l. count c (conns l)) free in omega (arith, Reach-total c r)
