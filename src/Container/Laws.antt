-- ===== src/Container/Laws.antt =====
-- What a container promises about the reply objects of its client, and that `DefaultContainer`
-- keeps the promise.
use cpp_hiredis_cluster.Base.{
  ℕ, Bool, true, false, ◌++◌, Option, none, some, refl, inl, inr, Option-cases,
}
use cpp_hiredis_cluster.Text.{Text, text_ltb, codes, c_string}
use cpp_hiredis_cluster.Text.Stoi.{stoi}
use cpp_hiredis_cluster.Effect.Monad.{Conn, Hiredis, lift}
use cpp_hiredis_cluster.Effect.Calls.{open_connection, is_usable}
use cpp_hiredis_cluster.Effect.Live.{
  KeepsReplies, NeverThrows, bind-KeepsReplies, open_connection-KeepsReplies,
}
use cpp_hiredis_cluster.Container.Types.{SlotConnection, HostConnection}
use cpp_hiredis_cluster.Container.OrderedMap.{map_at}
use cpp_hiredis_cluster.Container
use cpp_hiredis_cluster.Container.{
  DefaultContainer, insert_host, connect_host, store_host, parsed_port,
}
use cpp_hiredis_cluster.Container.Interface.{ConnectionContainer, default_container}

-- No call receives or frees a reply, and releasing a connection does not throw.
pub record RepliesKept {E : Type 0} (c : ConnectionContainer E) : Type 0 where
  pub insert_host_keeps : (host port : Text) → KeepsReplies (c.insert_host host port)
  pub get_connection_keeps : (slot : ℕ) → KeepsReplies (c.get_connection slot)
  pub release_slot_keeps : (con : SlotConnection) → KeepsReplies (c.release_slot con)
  pub release_slot_never_throws : (con : SlotConnection) → NeverThrows (c.release_slot con)
  pub release_host_keeps : (con : HostConnection) → KeepsReplies (c.release_host con)
  pub release_host_never_throws : (con : HostConnection) → NeverThrows (c.release_host con)

module _ {E : Type 0} (h : Hiredis E) where
  store_host-KeepsReplies :
      (key : Text) (conn : Option Conn) (usable : Bool)
      → KeepsReplies {E = E} (store_host h key conn usable)
  unfolding store_host
  store_host-KeepsReplies key none usable s w = refl
  store_host-KeepsReplies key (some con) true s w = refl
  store_host-KeepsReplies key (some con) false s w = refl

  connect_host-KeepsReplies :
      (key host port : Text) → KeepsReplies {E = E} (connect_host h key host port)
  unfolding connect_host
  connect_host-KeepsReplies key host port =
      bind-KeepsReplies (lift (parsed_port (stoi port))) _ (λ s w. refl)
        λ number.
          bind-KeepsReplies (open_connection h (c_string host) number) _
            (open_connection-KeepsReplies h (c_string host) number)
            λ conn s w.
              bind-KeepsReplies (store_host h key conn (is_usable h conn w.outside)) _
                (store_host-KeepsReplies key conn (is_usable h conn w.outside)) (λ u s w. refl) s w

  insert_host-KeepsReplies : (host port : Text) → KeepsReplies {E = E} (insert_host h host port)
  unfolding insert_host
  insert_host-KeepsReplies host port s w =
      elim (Option-cases (map_at text_ltb (host ++ (codes ":" ++ port)) s.connections)) [
        | inl unknown_host ↦
            rw (unknown_host, insert_host)
              (connect_host-KeepsReplies (host ++ (codes ":" ++ port)) host port s w)
        | inr (con, known) ↦ rw (known, insert_host)
      ]

  pub default_container-RepliesKept : RepliesKept (default_container h)
  unfolding Container.get_connection
  default_container-RepliesKept = record {
    insert_host_keeps = insert_host-KeepsReplies;
    get_connection_keeps = λ slot s w. refl;
    release_slot_keeps = λ con s w. refl;
    release_slot_never_throws = λ con s w x e. cc;
    release_host_keeps = λ con s w. refl;
    release_host_never_throws = λ con s w x e. cc;
  }
