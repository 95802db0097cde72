-- ===== src/Pool/Laws.antt =====
-- The pool does what a container promises about the reply objects of its client.
use cpp_hiredis_cluster.Base.{
  ℕ, zero, suc, Bool, true, false, List, [], ◌∷◌, Option, none, some, ◌++◌, refl,
}
use cpp_hiredis_cluster.Int.{ℤ}
use cpp_hiredis_cluster.Text.{Text, text_ltb, codes, c_string}
use cpp_hiredis_cluster.Text.Stoi.{stoi}
use cpp_hiredis_cluster.Effect.Monad.{Conn, Hiredis, Action, lift}
use cpp_hiredis_cluster.Effect.Calls.{open_connection, is_usable}
use cpp_hiredis_cluster.Effect.Live.{
  KeepsReplies, NeverThrows, bind-KeepsReplies, open_connection-KeepsReplies,
}
use cpp_hiredis_cluster.Container.{search_by_slots, parsed_port}
use cpp_hiredis_cluster.Container.Types.{SlotRange, slot_less, SlotConnection, HostConnection}
use cpp_hiredis_cluster.Container.OrderedMap.{map_at}
use cpp_hiredis_cluster.Container.Laws.{RepliesKept}
use cpp_hiredis_cluster.Pool.{
  pool_size, Pools, pull, push, run_at, at_pool, new_pool, on_nodes, on_connections, get_connection,
  release_slot, release_host, push_usable, fill_pool, known_host, new_host, found_host, insert_host,
}
use cpp_hiredis_cluster.Pool.Disconnect.{threaded_pool}

module _ {E A : Type 0} where
  pull-KeepsReplies : KeepsReplies (pull {E = E} {A = A})
  unfolding pull
  pull-KeepsReplies [] w = refl
  pull-KeepsReplies (con ∷ q) w = refl

  module _ {K B : Type 0} (less : K → K → Bool) (key : K) (m : Action (List A) E B) where
    run_at-KeepsReplies :
        KeepsReplies m → (found : Option (Option (List A))) → KeepsReplies (run_at less key m found)
    unfolding run_at
    run_at-KeepsReplies keeps none pools w = refl
    run_at-KeepsReplies keeps (some none) pools w = refl
    run_at-KeepsReplies keeps (some (some q)) pools w = keeps q w

    at_pool-KeepsReplies : KeepsReplies m → KeepsReplies (at_pool less key m)
    unfolding at_pool
    at_pool-KeepsReplies keeps pools w = run_at-KeepsReplies keeps (map_at less key pools) pools w

module _ {E B : Type 0} where
  on_nodes-KeepsReplies :
      (m : Action (Pools SlotRange Conn) E B) → KeepsReplies m → KeepsReplies (on_nodes m)
  unfolding on_nodes
  on_nodes-KeepsReplies m keeps s w = keeps s.nodes w

  on_connections-KeepsReplies :
      (m : Action (Pools Text (Option Conn)) E B) → KeepsReplies m → KeepsReplies (on_connections m)
  unfolding on_connections
  on_connections-KeepsReplies m keeps s w = keeps s.connections w

module _ {E : Type 0} where
  get_connection-KeepsReplies : (index : ℕ) → KeepsReplies (get_connection {E = E} index)
  unfolding get_connection
  get_connection-KeepsReplies index s w =
      bind-KeepsReplies (lift (search_by_slots index s.nodes)) _ (λ s w. refl)
        (λ found.
          bind-KeepsReplies (on_nodes (at_pool slot_less found.0 pull)) _
            (on_nodes-KeepsReplies _
              (at_pool-KeepsReplies slot_less found.0 pull pull-KeepsReplies))
            (λ con s w. refl))
        s w

  pushing-NeverThrows :
      {K A : Type 0} (less : K → K → Bool) (key : K) (con : A) (found : Option (Option (List A)))
      → NeverThrows {E = E} (run_at less key (push con) found)
  unfolding run_at push
  pushing-NeverThrows less key con none pools w x e = cc
  pushing-NeverThrows less key con (some none) pools w x e = cc
  pushing-NeverThrows less key con (some (some q)) pools w x e = cc

  release_slot-NeverThrows : (con : SlotConnection) → NeverThrows {E = E} (release_slot con)
  unfolding release_slot on_nodes at_pool
  release_slot-NeverThrows con s w =
      pushing-NeverThrows slot_less con.0 con.1 (map_at slot_less con.0 s.nodes) s.nodes w

  release_host-NeverThrows : (con : HostConnection) → NeverThrows {E = E} (release_host con)
  unfolding release_host on_connections at_pool
  release_host-NeverThrows con s w =
      pushing-NeverThrows text_ltb con.0 con.1 (map_at text_ltb con.0 s.connections) s.connections w

  release_slot-KeepsReplies : (con : SlotConnection) → KeepsReplies {E = E} (release_slot con)
  unfolding release_slot push
  release_slot-KeepsReplies con =
      on_nodes-KeepsReplies _ (at_pool-KeepsReplies slot_less con.0 (push con.1) (λ q w. refl))

  release_host-KeepsReplies : (con : HostConnection) → KeepsReplies {E = E} (release_host con)
  unfolding release_host push
  release_host-KeepsReplies con =
      on_connections-KeepsReplies _ (at_pool-KeepsReplies text_ltb con.0 (push con.1) (λ q w. refl))

module _ {E : Type 0} (h : Hiredis E) where
  push_usable-KeepsReplies :
      {A : Type 0} (pointer : Conn → A) (conn : Option Conn) (usable : Bool)
      → KeepsReplies (push_usable h pointer conn usable)
  unfolding push_usable push
  push_usable-KeepsReplies pointer none usable s w = refl
  push_usable-KeepsReplies pointer (some c) true s w = refl
  push_usable-KeepsReplies pointer (some c) false s w = refl

  fill_pool-KeepsReplies :
      {A : Type 0} (pointer : Conn → A) (n : ℕ) (host : Text) (port : ℤ)
      → KeepsReplies (fill_pool h pointer n host port)
  unfolding fill_pool
  fill_pool-KeepsReplies pointer zero host port s w = refl
  fill_pool-KeepsReplies pointer (suc n) host port s w =
      bind-KeepsReplies (open_connection h host port) _ (open_connection-KeepsReplies h host port)
        (λ conn s w.
          bind-KeepsReplies (push_usable h pointer conn (is_usable h conn w.outside)) _
            (push_usable-KeepsReplies pointer conn (is_usable h conn w.outside))
            (λ u. fill_pool-KeepsReplies pointer n host port) s w)
        s w

  new_host-KeepsReplies : (key host port : Text) → KeepsReplies (new_host h key host port)
  unfolding new_host new_pool on_connections
  new_host-KeepsReplies key host port s w =
      bind-KeepsReplies (lift (parsed_port (stoi port))) _ (λ s w. refl)
        (λ number.
          bind-KeepsReplies
            (on_connections
              (at_pool text_ltb key (fill_pool h some pool_size (c_string host) number)))
            _
            (on_connections-KeepsReplies {B = Unit {0}}
              (at_pool text_ltb key (fill_pool h some pool_size (c_string host) number))
              (at_pool-KeepsReplies text_ltb key (fill_pool h some pool_size (c_string host) number)
                (fill_pool-KeepsReplies some pool_size (c_string host) number)))
            λ u.
              bind-KeepsReplies (on_connections (at_pool text_ltb key pull)) _
                (on_connections-KeepsReplies {B = Option Conn} (at_pool text_ltb key pull)
                  (at_pool-KeepsReplies text_ltb key pull pull-KeepsReplies))
                (λ con s w. refl))
        _ w

  known_host-KeepsReplies :
      (key : Text) (found : Option (Option (List (Option Conn))))
      → KeepsReplies (known_host h key found)
  unfolding known_host
  known_host-KeepsReplies key none s w = refl
  known_host-KeepsReplies key (some p) s w =
      on_connections-KeepsReplies (at_pool text_ltb key pull)
        (at_pool-KeepsReplies text_ltb key pull pull-KeepsReplies) s w

  found_host-KeepsReplies :
      (key host port : Text) (con : Option Conn) → KeepsReplies (found_host h key host port con)
  unfolding found_host
  found_host-KeepsReplies key host port none s w = new_host-KeepsReplies key host port s w
  found_host-KeepsReplies key host port (some con) s w = refl

  insert_host-KeepsReplies : (host port : Text) → KeepsReplies (insert_host h host port)
  unfolding insert_host
  insert_host-KeepsReplies host port s w =
      let key = host ++ (codes ":" ++ port) in
      bind-KeepsReplies (known_host h key (map_at text_ltb key s.connections))
        (found_host h key host port)
        (known_host-KeepsReplies key (map_at text_ltb key s.connections))
        (found_host-KeepsReplies key host port) s w

  -- The pool keeps the contract that the ownership of reply objects rests on: for any hiredis, and
  -- whatever closing a null pointer does, its calls neither receive nor free a reply, and giving a
  -- connection back does not throw.
  pub threaded_pool-RepliesKept : (close_null : E → E) → RepliesKept (threaded_pool h close_null)
  threaded_pool-RepliesKept close_null = record {
    insert_host_keeps = insert_host-KeepsReplies;
    get_connection_keeps = get_connection-KeepsReplies;
    release_slot_keeps = release_slot-KeepsReplies;
    release_slot_never_throws = release_slot-NeverThrows;
    release_host_keeps = release_host-KeepsReplies;
    release_host_never_throws = release_host-NeverThrows;
  }
