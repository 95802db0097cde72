-- ===== src/Pool/Crew.antt =====
-- src/examples/threadpool.cpp: `processCommandPool`, many threads that each send one command for the
-- same key over one pool. A node answers every command as `commandThread` asserts.
pub mod Finish
use cpp_hiredis_cluster.Base.{ℕ, zero, suc, ◌+◌, ◌≡◌, List, [], ◌∷◌, ◌++◌}
use cpp_hiredis_cluster.Effect.Monad.{ok, World}
use cpp_hiredis_cluster.Container.Types.{SlotConnection}
use cpp_hiredis_cluster.Pool.{ThreadedPool, get_connection, release_slot}
use cpp_hiredis_cluster.Pool.Threads.{Shared}

-- The threads that have no connection yet, those that have one (with the pool), those that have
-- given it back and have not counted, and `cnt`.
pub record Crew : Type 0 where
  pub waiting : ℕ
  pub shared : Shared
  pub served : ℕ
  pub cnt : ℕ

-- What one thread of `commandThread` does under a lock, for the slot of its key.
pub data Turn (E : Type 0) (index : ℕ) (s : Crew) : Crew → Type 0 where
  -- `process` gets its connection.
  begin :
      (k : ℕ) (con : SlotConnection) (pool' : ThreadedPool) (w w' : World E)
      → s.waiting ≡ suc k
      → get_connection index s.shared.pool w ≡ (ok con, pool', w')
      → Turn E index s
          (record s { waiting = k; shared = record { pool = pool'; held = con ∷ s.shared.held } })
  -- `process` has the reply and gives its connection back.
  leave :
      (before others : List SlotConnection) (con : SlotConnection) (pool' : ThreadedPool)
      (w w' : World E)
      → s.shared.held ≡ before ++ con ∷ others
      → release_slot con s.shared.pool w ≡ (ok tt, pool', w')
      → Turn E index s (record s {
        shared = record { pool = pool'; held = before ++ others };
        served = s.served + 1;
      })
  -- `++cnt`
  tally : (k : ℕ) → s.served ≡ suc k → Turn E index s (record s { served = k; cnt = s.cnt + 1 })

-- So many turns.
pub data Turns (E : Type 0) (index : ℕ) (s : Crew) : ℕ → Crew → Type 0 where
  start : Turns E index s 0 s
  further :
      {k : ℕ} {t u : Crew} → Turns E index s k t → Turn E index t u → Turns E index s (suc k) u

-- `threadsNum`
abbrev pub threads_num : ℕ
threads_num = 1000

-- `processCommandPool` with its threads started.
abbrev pub started : ℕ → ThreadedPool → Crew
started n pool = record {
  waiting = n;
  shared = record { pool = pool; held = [] };
  served = 0;
  cnt = 0;
}
