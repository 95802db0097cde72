-- ===== src/Pool/Crew/Finish.antt =====
-- Threads that each send one command over one pool all come to their end.
use mathlib.Core.Path.{subst}
use cpp_hiredis_cluster.Base.{
  ℕ, zero, suc, ◌+◌, ◌*◌, ◌^◌, ◌<◌, ◌≤◌, ◌≡◌, refl, sym, ap, ◌∙◌, ◌⊎◌, inl, inr, List, [], ◌∷◌,
  ◌++◌, some, arith, length, length-append,
}
use cpp_hiredis_cluster.Effect.Monad.{ok, ok-injective, Conn, World}
use cpp_hiredis_cluster.Container.Search.{lookup_slot, Separated, search_by_slots_lem}
use cpp_hiredis_cluster.Container.Types.{SlotRange, slot_less, SlotConnection}
use cpp_hiredis_cluster.Container.OrderedMap.{map_at}
use cpp_hiredis_cluster.Pool.{ThreadedPool, get_connection}
use cpp_hiredis_cluster.Pool.Slots.{map_at-lookup_slot}
use cpp_hiredis_cluster.Pool.Borrow.{get_connection-Taken, get_connection-found, release_slot-there}
use cpp_hiredis_cluster.Pool.Lent.{lent}
use cpp_hiredis_cluster.Pool.Threads.{Shared, take, give}
use cpp_hiredis_cluster.Pool.Progress.{Pooled, Step-Pooled}
use cpp_hiredis_cluster.Pool.Crew.{Crew, Turn, begin, leave, tally, Turns, start, further, started}

-- Every connection is of the range.
abbrev AllOf : SlotRange → List SlotConnection → Type 0
AllOf range [] = Unit {0}
AllOf range (con ∷ held) = (con.0 ≡ range) × AllOf range held

AllOf-append :
    (range : SlotRange) (xs ys : List SlotConnection) (con : SlotConnection)
    → AllOf range (xs ++ con ∷ ys)
    → AllOf range (xs ++ ys)
AllOf-append range [] ys con all = all.1
AllOf-append range (x ∷ xs) ys con all = (all.0, AllOf-append range xs ys con all.1)

-- The turns that are left, and the threads.
abbrev left : Crew → ℕ
left t = 3 * t.waiting + 2 * length t.shared.held + t.served

abbrev threads : Crew → ℕ
threads t = t.waiting + length t.shared.held + t.served + t.cnt

record Going (index size : ℕ) (range : SlotRange) (t : Crew) : Type 0 where
  pooled : Pooled index size range t.shared
  all : AllOf range t.shared.held

module _ {E : Type 0} (index : ℕ) (range : SlotRange) (size : ℕ) (small : index + 1 < 2 ^ 32) where
  taken_range :
      (con : SlotConnection) (t : Shared) (pool' : ThreadedPool) (w w' : World E)
      → Pooled index size range t
      → get_connection index t.pool w ≡ (ok con, pool', w')
      → con.0 ≡ range
  taken_range con t pool' w w' inv e =
      let (k, p, at, taken) = get_connection-Taken index con t.pool pool' w w' e in
      let same =
        ok-injective
          (sym at ∙ search_by_slots_lem index t.pool.nodes small inv.separated ∙ inv.found) in
      ap (λ c. c.0) taken.same ∙ ap (λ f. f.0) same

  Turn-Going : {t u : Crew} → Turn E index t u → Going index size range t → Going index size range u
  Turn-Going {t} (begin k con pool' w w' more e) inv = record {
    pooled = Step-Pooled index size range (take index con pool' w w' e) inv.pooled;
    all = (taken_range con t.shared pool' w w' inv.pooled e, inv.all);
  }
  Turn-Going {t} (leave before others con pool' w w' split e) inv = record {
    pooled = Step-Pooled index size range (give before others con pool' w w' split e) inv.pooled;
    all = AllOf-append range before others con (subst (λ l. AllOf range l) split inv.all);
  }
  Turn-Going {t} (tally k more) inv = record { pooled = inv.pooled; all = inv.all }

  Turn-left : {t u : Crew} → Turn E index t u → left u + 1 ≡ left t
  Turn-left {t} (begin k con pool' w w' more e) = omega (arith, more)
  Turn-left {t} (leave before others con pool' w w' split e) =
      let sizes = ap (λ l. length l) split in
      omega (arith, sizes, length-append before (con ∷ others), length-append before others)
  Turn-left {t} (tally k more) = omega (arith, more)

  Turn-threads : {t u : Crew} → Turn E index t u → threads u ≡ threads t
  Turn-threads {t} (begin k con pool' w w' more e) = omega (arith, more)
  Turn-threads {t} (leave before others con pool' w w' split e) =
      let sizes = ap (λ l. length l) split in
      omega (arith, sizes, length-append before (con ∷ others), length-append before others)
  Turn-threads {t} (tally k more) = omega (arith, more)

  Turns-Going :
      {s t : Crew} {k : ℕ}
      → Turns E index s k t
      → Going index size range s
      → Going index size range t
  Turns-Going start inv = inv
  Turns-Going (further r st) inv = Turn-Going st (Turns-Going r inv)

  Turns-left : {s t : Crew} {k : ℕ} → Turns E index s k t → left t + k ≡ left s
  Turns-left start = omega arith
  Turns-left (further r st) = omega (arith, Turn-left st, Turns-left r)

  Turns-threads : {s t : Crew} {k : ℕ} → Turns E index s k t → threads t ≡ threads s
  Turns-threads start = refl
  Turns-threads (further r st) = Turn-threads st ∙ Turns-threads r

  -- A thread with a connection can give it back.
  can_leave :
      (t : Crew) (con : SlotConnection) (others : List SlotConnection) (w : World E)
      → Pooled index size range t.shared
      → t.shared.held ≡ con ∷ others
      → con.0 ≡ range
      → (u : Crew) × Turn E index t u
  can_leave t con others w inv split same =
      let there =
        map_at-lookup_slot index range (some inv.queue) t.shared.pool.nodes inv.separated
          inv.found in
      (
        _,
        leave [] others con _ w w split (
            release_slot-there con inv.queue t.shared.pool w
              (ap (λ r. map_at slot_less r t.shared.pool.nodes) same ∙ there)),
      )

  -- With no connection away, a waiting thread can take one.
  can_begin :
      (t : Crew) (k : ℕ) (queue : List Conn) (w : World E)
      → Separated t.shared.pool.nodes
      → lookup_slot index t.shared.pool.nodes ≡ ok (range, some queue)
      → 0 < length queue
      → t.waiting ≡ suc k
      → (u : Crew) × Turn E index t u
  can_begin t k [] w sep found some_free more = absurd (omega arith)
  can_begin t k (c ∷ q) w sep found some_free more = (
    _,
    begin k (range, c) _ w w more
        (get_connection-found index range (some (c ∷ q)) c q t.shared.pool w
          (search_by_slots_lem index t.shared.pool.nodes small sep ∙ found)
          (map_at-lookup_slot index range (some (c ∷ q)) t.shared.pool.nodes sep found)),
  )

  moves_or_done :
      (t : Crew) (waiting served : ℕ) (held : List SlotConnection) (w : World E)
      → 0 < size
      → Pooled index size range t.shared
      → AllOf range held
      → t.waiting ≡ waiting
      → t.served ≡ served
      → t.shared.held ≡ held
      → ((t.waiting ≡ 0) × (t.served ≡ 0) × (t.shared.held ≡ [])) ⊎ ((u : Crew) × Turn E index t u)
  moves_or_done t waiting served (con ∷ others) w some_conns inv all e f split =
      inr (can_leave t con others w inv split all.0)
  moves_or_done t (suc k) served [] w some_conns inv all e f split =
      let away = ap (λ l. lent range l) split in
      let size = inv.size in inr (can_begin t k inv.queue w inv.separated inv.found (omega arith) e)
  moves_or_done t zero (suc k) [] w some_conns inv all e f split = inr (_, tally k f)
  moves_or_done t zero zero [] w some_conns inv all e f split = inl (e, f, split)

-- The pool is as large as at the start, and every thread has counted.
abbrev pub Finished : ℕ → SlotRange → ℕ → ℕ → Crew → Type 0
Finished index range size n t =
    (t.waiting ≡ 0)
    × (t.served ≡ 0)
    × (t.shared.held ≡ [])
    × (t.cnt ≡ n)
    × ((queue : List Conn) × (lookup_slot index t.shared.pool.nodes ≡ ok (range, some queue))
        × (length queue ≡ size))

-- Any number of threads that send a command for one slot, whose range has a connection among ranges
-- in rising order that do not meet, over nodes that answer each command as the threads assert: in
-- whatever order the threads get the lock, they take at most three turns for each thread, and after
-- `k` turns either another turn is possible, or all of these are taken, `cnt` is the number of
-- threads and every connection is in the pool.
pub Turns-Finished :
    {E : Type 0} {t : Crew} {k : ℕ} (index : ℕ) (range : SlotRange) (c : Conn) (q : List Conn)
    (n : ℕ) (pool : ThreadedPool) (w : World E)
    → index + 1 < 2 ^ 32
    → Separated pool.nodes
    → lookup_slot index pool.nodes ≡ ok (range, some (c ∷ q))
    → Turns E index (started n pool) k t
    → (k ≤ 3 * n)
      × ((Finished index range (length (c ∷ q)) n t × (k ≡ 3 * n))
          ⊎ ((u : Crew) × Turn E index t u))
Turns-Finished {t = t} {k = k} index range c q n pool w small sep found r =
    let size = length (c ∷ q) in
    let inv = Turns-Going index range size small r (record {
      pooled = record { separated = sep; queue = c ∷ q; found = found; size = omega arith };
      all = tt;
    }) in
    let turns = Turns-left index range size small r in
    let whole = Turns-threads index range size small r in
    (
      omega arith,
      elim (moves_or_done index range size small t t.waiting t.served t.shared.held w (omega arith)
          inv.pooled inv.all refl refl refl) [
            | inl (e, f, split) ↦
                let away = ap (λ l. length l) split in
                let home = ap (λ l. lent range l) split in
                let sizes = inv.pooled.size in
                inl (
                  (e, f, split, omega arith, (inv.pooled.queue, inv.pooled.found, omega arith)),
                  omega arith,
                )
            | inr more ↦ inr more
          ],
    )
