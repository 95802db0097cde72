-- ===== src/Container/Live.antt =====
-- Containers whose calls return or throw, and that `DefaultContainer` is one.
use cpp_hiredis_cluster.Base.{
  ℕ, Bool, true, false, ◌++◌, ◌||◌, ◌≡◌, ◌⊎◌, Option, none, some, ltb, inl, inr, Option-cases,
  Bool-cases,
}
use cpp_hiredis_cluster.Int.{ℤ}
use cpp_hiredis_cluster.Text.{Text, text_ltb, codes, c_string}
use cpp_hiredis_cluster.Text.Stoi
use cpp_hiredis_cluster.Text.Stoi.{Parsed, stoi}
use cpp_hiredis_cluster.Effect.Exception.{Exception}
use cpp_hiredis_cluster.Effect.Monad.{ok, throw, Conn, Hiredis, World, lift, pure}
use cpp_hiredis_cluster.Effect.Calls.{open_connection, is_usable}
use cpp_hiredis_cluster.Effect.Defined.{ComesBack, IsDefined, Anything, bind-IsDefined}
use cpp_hiredis_cluster.Container.Types.{SlotRange, SlotConnection, HostConnection}
use cpp_hiredis_cluster.Container.OrderedMap.{map_at}
use cpp_hiredis_cluster.Container
use cpp_hiredis_cluster.Container.{
  DefaultContainer, check_node, search_by_slots, insert_host, connect_host, store_host, parsed_port,
}
use cpp_hiredis_cluster.Container.Interface.{ConnectionContainer, default_container}

pub record IsLive {E : Type 0} (c : ConnectionContainer E) : Type 0 where
  pub insert_host_live : (host port : Text) → IsDefined Anything (c.insert_host host port)
  pub get_connection_live : (slot : ℕ) → IsDefined Anything (c.get_connection slot)
  pub release_slot_live : (con : SlotConnection) → IsDefined Anything (c.release_slot con)
  pub release_host_live : (con : HostConnection) → IsDefined Anything (c.release_host con)

check_node-ComesBack :
    {V S E : Type 0} (index : ℕ) (node : Option (SlotRange × V)) (s : S) (w : World E)
    → ComesBack Anything (check_node index node, s, w)
unfolding check_node
check_node-ComesBack index none s w = tt
check_node-ComesBack index (some (range, v)) s w =
    elim (Bool-cases (ltb index range.first || ltb range.second index)) [
      | inl outside_range ↦ rw outside_range tt
      | inr inside ↦ rw inside tt
    ]

-- The connection function returns, with whatever pointer, or throws.
abbrev pub ConnectReturns : {E : Type 0} → Hiredis E → Type 0
ConnectReturns {E} h =
    (host : Text) (port : ℤ) (e : E)
    → ((conn : Option Conn) × ((h.connect host port e).0 ≡ ok conn))
      ⊎ ((x : Exception) × ((h.connect host port e).0 ≡ throw x))

module _ {E : Type 0} (h : Hiredis E) (returns : ConnectReturns h) where
  open_connection-IsDefined :
      {S : Type 0} (host : Text) (port : ℤ)
      → IsDefined {S = S} Anything (open_connection h host port)
  unfolding open_connection
  open_connection-IsDefined host port s w = elim (returns host port w.outside) [
    | inl (conn, e) ↦ rw (e, ComesBack) tt
    | inr (x, e) ↦ rw (e, ComesBack) tt
  ]

  parsed_port-ComesBack :
      {S : Type 0} (p : Parsed) (s : S) (w : World E) → ComesBack Anything (parsed_port p, s, w)
  unfolding parsed_port
  parsed_port-ComesBack (Stoi.Parsed.value n) s w = tt
  parsed_port-ComesBack Stoi.Parsed.invalid s w = tt
  parsed_port-ComesBack Stoi.Parsed.too_large s w = tt

  store_host-IsDefined :
      (key : Text) (conn : Option Conn) (usable : Bool)
      → IsDefined Anything (store_host h key conn usable)
  unfolding store_host
  store_host-IsDefined key none usable s w = tt
  store_host-IsDefined key (some c) true s w = tt
  store_host-IsDefined key (some c) false s w = tt

  connect_host-IsDefined :
      (key host port : Text) → IsDefined Anything (connect_host h key host port)
  unfolding connect_host
  connect_host-IsDefined key host port =
      bind-IsDefined Anything Anything _ (lift (parsed_port (stoi port)))
        (λ s w. parsed_port-ComesBack (stoi port) s w)
        λ number _.
          bind-IsDefined Anything Anything _ (open_connection h (c_string host) number)
            (open_connection-IsDefined (c_string host) number)
            λ conn _ s w.
              bind-IsDefined Anything Anything (λ _. pure (key, conn))
                (store_host h key conn (is_usable h conn w.outside))
                (store_host-IsDefined key conn (is_usable h conn w.outside)) (λ u _ s w. tt) s w

  insert_host-IsDefined : (host port : Text) → IsDefined Anything (insert_host h host port)
  unfolding insert_host
  insert_host-IsDefined host port s w =
      elim (Option-cases (map_at text_ltb (host ++ (codes ":" ++ port)) s.connections)) [
        | inl unknown_host ↦
            rw (unknown_host, insert_host, ComesBack)
              (connect_host-IsDefined (host ++ (codes ":" ++ port)) host port s w)
        | inr (con, known) ↦ rw (known, insert_host, ComesBack) tt
      ]

  pub default_container-IsLive : IsLive (default_container h)
  unfolding Container.get_connection search_by_slots
  default_container-IsLive = record {
    insert_host_live = insert_host-IsDefined;
    get_connection_live = λ slot s w. check_node-ComesBack slot _ s w;
    release_slot_live = λ con s w. tt;
    release_host_live = λ con s w. tt;
  }
