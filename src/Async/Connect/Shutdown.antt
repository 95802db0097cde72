-- ===== src/Async/Connect/Shutdown.antt =====
-- A cluster of asynchronous connections that is disconnected before it is deleted.
use cpp_hiredis_cluster.Base.{
  ℕ, ◌+◌, ◌≤◌, Bool, true, false, List, [], ◌∷◌, some, ◌==◌, if◌then◌else◌, ◌≡◌, refl, arith,
  Bool-cases, inl, inr,
}
use cpp_hiredis_cluster.Effect.Monad.{Conn, Hiredis, World}
use cpp_hiredis_cluster.Effect.Calls.{close_all, close_connection}
use cpp_hiredis_cluster.Container
use cpp_hiredis_cluster.Container.Interface.{ConnectionContainer}
use cpp_hiredis_cluster.Container.{DefaultContainer}
use cpp_hiredis_cluster.Container.Close.{times_held}
use cpp_hiredis_cluster.Cluster
use cpp_hiredis_cluster.Cluster.{Cluster, on_container}
use cpp_hiredis_cluster.Async.Connect.{
  ContextPointer, null, deleted, at, Linked, AsyncSockets, holds, remove, destruct,
  cluster_destruct_cb, disconnect, disconnected, linked_hiredis, nodes_container,
}
use cpp_hiredis_cluster.Async.Connect.Counting.{
  Counts, CountsAt, Happens, none_yet, loses, Happens-Counts, disconnect-Counts,
  contexts-disconnected,
}

-- How often a list has the connection.
abbrev pub times : Conn → List Conn → ℕ
times c [] = 0
times c (d ∷ l) = (if c == d then 1 else 0) + times c l

times-remove :
    (c con : Conn) (l : List Conn)
    → times c l ≤ times c (remove con l) + (if c == con then 1 else 0)
unfolding remove
times-remove c con [] = ground arith
times-remove c con (d ∷ l) = ground (arith, times-remove c con l)

holds-times : (con : Conn) (l : List Conn) → 1 ≤ times con l → holds con l ≡ true
unfolding holds
holds-times con [] h = ground arith
holds-times con (d ∷ l) h = ground (arith, holds-times con l)

-- Connections end, one after another.
pub data Ended {E : Type 0} (l : Linked E) : Linked E → Type 0 where
  none_ended : Ended l l
  ends : {m : Linked E} (con : Conn) → Ended l m → Ended l (disconnected con m)

-- The end of a connection that is not tied to the context runs no callback.
disconnected-untied :
    {E : Type 0} (con : Conn) (l : Linked E)
    → l.tied ≡ []
    → l.misused ≡ false
    → (disconnected con l).misused ≡ false
unfolding disconnected holds
disconnected-untied con l none_tied fine = rw none_tied fine

Ended-Happens :
    {E : Type 0} (base : Hiredis E) (a : AsyncSockets E) {l m : Linked E}
    → Ended l m
    → Happens base a l m
Ended-Happens base a none_ended = none_yet
Ended-Happens base a (ends con before) = loses con (Ended-Happens base a before)

module _ {E : Type 0} (base : Hiredis E) (a : AsyncSockets E) where
  times-disconnect :
      (c con : Conn) (l : Linked E)
      → holds con l.contexts ≡ true
      → times c l.contexts
        ≤ times c (disconnect base a con l).contexts + (if c == con then 1 else 0)
  unfolding disconnect
  times-disconnect c con l alive =
      let called : Linked E = record l { outside = (a.disconnect_async con l.outside).1 } in
      rw alive (elim (Bool-cases (a.disconnect_async con l.outside).0) [
        | inl now ↦ rw (now, contexts-disconnected con called) (times-remove c con l.contexts)
        | inr later ↦ rw later (omega arith)
      ])

  -- What closing a list of connections leaves open, counted from above.
  abbrev Left : {K : Type 0} → List (K × Conn) → World (Linked E) → World (Linked E) → Type 0
  Left cons w w' =
      Counts true w'.outside
      × ((c : Conn) → times c w.outside.contexts ≤ times c w'.outside.contexts + times_held c cons)

  close_all-Left :
      {K : Type 0} (cons : List (K × Conn)) (w : World (Linked E))
      → Counts true w.outside
      → ((c : Conn) → times_held c cons ≤ times c w.outside.contexts)
      → Left cons w (close_all (linked_hiredis base a) cons w)
  unfolding close_all close_connection
  close_all-Left [] w counts held = (counts, λ c. omega arith)
  close_all-Left ((k, con) ∷ cons) w counts held =
      let alive = holds-times con w.outside.contexts (ground (arith, held con)) in
      let step = λ (c : Conn). times-disconnect c con w.outside alive in
      let rest =
        close_all-Left cons (close_connection (linked_hiredis base a) con w)
          (disconnect-Counts base a con w.outside alive counts)
          (λ c. omega (arith, step c, held c)) in
      (rest.0, λ c. omega (arith, rest.1 c, step c))

  destructed :
      (p : ContextPointer) (tied : List Conn) (misused : Bool)
      → CountsAt true tied p
      → misused ≡ false
      → ((destruct p misused).1 ≡ false) × ((destruct p misused).0 ≡ deleted)
  unfolding destruct
  destructed null tied misused counts fine = absurd counts
  destructed deleted tied misused counts fine = absurd counts
  destructed (at c) tied misused counts fine = (fine, refl)

  abbrev c : ConnectionContainer (Linked E)
  c = nodes_container base a

  module _ (cl : Cluster DefaultContainer) (w : World (Linked E)) where
    -- `disconnect()`, and what it leaves.
    abbrev pub behind : World (Linked E)
    behind = (Cluster.disconnect c cl w).2

    abbrev pub emptied : Cluster DefaultContainer
    emptied = (Cluster.disconnect c cl w).1

    closed-Counts :
        cl.container.has_disconnect ≡ true
        → Counts true w.outside
        → ((con : Conn)
            → times_held con cl.container.nodes + times_held con cl.container.connections
              ≤ times con w.outside.contexts)
        → Counts true behind.outside
    unfolding Cluster.disconnect Container.disconnect on_container
    closed-Counts closing counts held =
        let nodes = close_all-Left cl.container.nodes w counts (λ con. omega (arith, held con)) in
        let all =
          close_all-Left cl.container.connections
            (close_all (linked_hiredis base a) cl.container.nodes w) nodes.0
            (λ con. omega (arith, held con, nodes.1 con)) in
        rw closing all.0

    -- The destructor of a cluster that has nothing left to close.
    destroy-emptied :
        (m : Linked E)
        → (Cluster.destroy c
            (some cluster_destruct_cb)
            emptied
            (record behind { outside = m })).1.outside
          ≡ cluster_destruct_cb m
    unfolding Cluster.disconnect Cluster.destroy Container.disconnect on_container close_all
    destroy-emptied m = ground arith

    -- A cluster is disconnected, then its connections end, in any order, and with no connect in
    -- between, and once none is tied to the shared context any more it is deleted: there was no
    -- undefined behaviour, the context is deleted, and no connection that ends later, whichever it
    -- is, reads it. This is for a container with the disconnect function whose connections are open,
    -- each as often as it holds it, and a context that counts.
    pub destroy-disconnect :
        (m : Linked E) (later : Conn)
        → cl.container.has_disconnect ≡ true
        → Counts true w.outside
        → ((con : Conn)
            → times_held con cl.container.nodes + times_held con cl.container.connections
              ≤ times con w.outside.contexts)
        → Ended behind.outside m
        → m.tied ≡ []
        → let gone =
            (Cluster.destroy c
              (some cluster_destruct_cb)
              emptied
              (record behind { outside = m })).1.outside in
          (gone.misused ≡ false)
          × (gone.context ≡ deleted)
          × ((disconnected later gone).misused ≡ false)
    unfolding cluster_destruct_cb
    destroy-disconnect m later closing counts held ended none_tied =
        let end =
          Happens-Counts base a (Ended-Happens base a ended) (closed-Counts closing counts held) in
        let (fine, gone) = destructed m.context m.tied m.misused end.0 end.1 in
        rw (destroy-emptied m)
          (fine, gone, disconnected-untied later (cluster_destruct_cb m) none_tied fine)
