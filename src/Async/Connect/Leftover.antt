-- ===== src/Async/Connect/Leftover.antt =====
-- What `~Cluster` and a failed `connect` leave behind.
use cpp_hiredis_cluster.Base.{
  Bool, true, false, if◌then◌else◌, List, [], ◌∷◌, some, ◌≡◌, refl, ap, ◌∙◌, Bool-cases,
  Option-cases, inl, inr,
}
use cpp_hiredis_cluster.Effect.Monad.{Conn, Hiredis, World}
use cpp_hiredis_cluster.Effect.Calls.{close_all, close_connection}
use cpp_hiredis_cluster.Container.Types.{SlotRange}
use cpp_hiredis_cluster.Container
use cpp_hiredis_cluster.Container.{DefaultContainer}
use cpp_hiredis_cluster.Cluster
use cpp_hiredis_cluster.Cluster.{Cluster}
use cpp_hiredis_cluster.Async.Connect.Counting.{contexts-disconnected}
use cpp_hiredis_cluster.Async.Connect.{
  remove, ConnectContext, deleted, at, Linked, AsyncSockets, holds, count_down, disconnect_cb,
  disconnected, destruct, cluster_destruct_cb, disconnect, linked_hiredis, nodes_container,
}

module _ {E : Type 0} where
  misused_cb : (l : Linked E) → l.misused ≡ true → (disconnect_cb l).misused ≡ true
  unfolding disconnect_cb
  misused_cb l m = elim (Option-cases (count_down l.context)) [
    | inl missing ↦ rw (missing, disconnect_cb) refl
    | inr (p, there) ↦ rw (there, disconnect_cb) m
  ]

  misused-if :
      (b : Bool) (l m : Linked E)
      → l.misused ≡ true
      → m.misused ≡ true
      → (if b then l else m).misused ≡ true
  misused-if true l m p q = p
  misused-if false l m p q = q

  misused-disconnected :
      (con : Conn) (l : Linked E) → l.misused ≡ true → (disconnected con l).misused ≡ true
  unfolding disconnected
  misused-disconnected con l m = elim (Bool-cases (holds con l.tied)) [
    | inl there ↦ rw there (misused_cb _ m)
    | inr absent ↦ rw absent m
  ]

module _ {E : Type 0} (base : Hiredis E) (a : AsyncSockets E) where
  misused-disconnect :
      (con : Conn) (l : Linked E) → l.misused ≡ true → (disconnect base a con l).misused ≡ true
  unfolding disconnect
  misused-disconnect con l m =
      misused-if (holds con l.contexts) _ _
        (misused-if (a.disconnect_async con l.outside).0 _ _
          (misused-disconnected con (record l { outside = (a.disconnect_async con l.outside).1 }) m)
          m)
        refl

  misused-close_all :
      {K : Type 0} (cons : List (K × Conn)) (w : World (Linked E))
      → w.outside.misused ≡ true
      → (close_all (linked_hiredis base a) cons w).outside.misused ≡ true
  unfolding close_all close_connection
  misused-close_all [] w m = m
  misused-close_all ((k, con) ∷ cons) w m =
      misused-close_all cons _ (misused-disconnect con w.outside m)

  disconnect_orphan :
      (con : Conn) (l : Linked E)
      → l.context ≡ deleted
      → holds con l.contexts ≡ true
      → holds con l.tied ≡ true
      → (a.disconnect_async con l.outside).0 ≡ true
      → (disconnect base a con l).misused ≡ true
  unfolding disconnect disconnected disconnect_cb count_down
  disconnect_orphan con l gone alive there now =
      rw (alive, now, there, gone, disconnect_cb, count_down) refl

  destruct_at :
      (l : Linked E) (c : ConnectContext)
      → l.context ≡ at c
      → (cluster_destruct_cb l).context ≡ deleted
  unfolding cluster_destruct_cb destruct
  destruct_at l c e = rw e refl

  -- If a cluster of asynchronous connections is destroyed while the first connection of its nodes
  -- is open, has the shared context and awaits no reply, then the context is deleted first, and the
  -- callback of the disconnect reads it: undefined behaviour. This is for a container that has the
  -- disconnect function, as `createCluster` makes it.
  pub destroy-misused :
      (cl : Cluster DefaultContainer) (w : World (Linked E)) (c : ConnectContext)
      (range : SlotRange) (con : Conn) (nodes : List (SlotRange × Conn))
      → cl.container.has_disconnect ≡ true
      → cl.container.nodes ≡ (range, con) ∷ nodes
      → w.outside.context ≡ at c
      → holds con w.outside.contexts ≡ true
      → holds con w.outside.tied ≡ true
      → (a.disconnect_async con w.outside.outside).0 ≡ true
      → (Cluster.destroy (nodes_container base a) (some cluster_destruct_cb) cl w).1.outside.misused
        ≡ true
  unfolding Cluster.destroy Container.disconnect close_all close_connection cluster_destruct_cb
  destroy-misused cl w c range con nodes closing first there alive tied idle =
      rw (closing, first)
        (misused-close_all cl.container.connections _ (
          misused-close_all nodes _ (
            disconnect_orphan con (cluster_destruct_cb w.outside) (destruct_at w.outside c there)
              alive tied idle)))

  stale_disconnect :
      (con : Conn) (l : Linked E)
      → holds con l.contexts ≡ false
      → (disconnect base a con l).misused ≡ true
  unfolding disconnect
  stale_disconnect con l ended = rw ended refl

  -- If the first connection of a cluster's nodes is lost, then its callback's `deleteConnection`
  -- leaves it in the container, and a later `disconnect()` of the cluster disconnects it although it
  -- has ended: undefined behaviour. This is for a connection that is open only once, and a
  -- container that has the disconnect function.
  pub disconnect-lost :
      (cl : Cluster DefaultContainer) (w : World (Linked E)) (range : SlotRange) (con : Conn)
      (nodes : List (SlotRange × Conn))
      → cl.container.has_disconnect ≡ true
      → cl.container.nodes ≡ (range, con) ∷ nodes
      → holds con (remove con w.outside.contexts) ≡ false
      → let c = nodes_container base a in
        let lost : World (Linked E) = record w { outside = disconnected con w.outside } in
        let told = Cluster.delete_connection c con cl lost in
        (Cluster.disconnect c told.1 told.2).2.outside.misused ≡ true
  unfolding Cluster.disconnect Cluster.delete_connection Cluster.on_container Container.disconnect
      Container.delete_connection close_all close_connection
  disconnect-lost cl w range con nodes closing first once =
      rw (closing, first)
        (misused-close_all cl.container.connections _ (
          misused-close_all nodes _ (
            stale_disconnect con (disconnected con w.outside)
              (ap (holds con) (contexts-disconnected con w.outside) ∙ once))))
