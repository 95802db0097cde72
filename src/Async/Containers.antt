-- ===== src/Async/Containers.antt =====
-- `DefaultContainer` under an asynchronous cluster: its calls do nothing to command objects.
use mathlib.Core.Path.{subst}
use cpp_hiredis_cluster.Container.Hosts.{NeverNull, Found, insert_host-Found}
use cpp_hiredis_cluster.Base.{
  ℕ, Bool, true, false, Option, none, some, ltb, ◌||◌, if◌then◌else◌, length, ◌≡◌, refl, ◌⊎◌, inl,
  inr, Bool-cases, sym, ap,
}
use cpp_hiredis_cluster.Text.{Text}
use cpp_hiredis_cluster.SlotHash.{slot_by_key}
use cpp_hiredis_cluster.Effect.Exception.{node_search, not_initialized}
use cpp_hiredis_cluster.Effect.Monad.{Outcome, ok, throw, Conn, Hiredis, World, raise}
use cpp_hiredis_cluster.Container.Types.{HostConnection, SlotConnection}
use cpp_hiredis_cluster.Container
use cpp_hiredis_cluster.Container.{DefaultContainer, insert_host, check_node, search_by_slots}
use cpp_hiredis_cluster.Container.Interface.{default_container}
use cpp_hiredis_cluster.Cluster.{
  Cluster, on_container, create_new_connection, get_connection, serve_slot,
}
use cpp_hiredis_cluster.Async.Steady.{trace, Quiet, Connects}

module _ {E : Type 0} (h : Hiredis E) (never_null : NeverNull h) where
  abbrev NotNull : HostConnection → Type 0
  NotNull hcon = (con : Conn) × (hcon.1 ≡ some con)

  -- The call seen through `connections_`.
  abbrev placed :
      Cluster DefaultContainer
      → Outcome HostConnection × DefaultContainer × World E
      → Outcome HostConnection × Cluster DefaultContainer × World E
  placed cl t = (t.0, record cl { container = t.1 }, t.2)

  placed-Quiet :
      (cl : Cluster DefaultContainer) (w : World E)
      (t : Outcome HostConnection × DefaultContainer × World E)
      → Found h never_null w t
      → Quiet NotNull (trace w.log) (placed cl t)
  placed-Quiet cl w t (inl (key, con, s, w', e, inl same)) =
      subst (λ t. Quiet NotNull (trace w.log) (placed cl t)) (sym e) ((con, refl), ap trace same)
  placed-Quiet cl w t (inl (key, con, s, w', e, inr more)) =
      subst (λ t. Quiet NotNull (trace w.log) (placed cl t)) (sym e) ((con, refl), ap trace more)
  placed-Quiet cl w t (inr (x, s, w', e, same)) =
      subst (λ t. Quiet NotNull (trace w.log) (placed cl t)) (sym e) (ap trace same)

  pub default_container-Connects : Connects (default_container h)
  unfolding create_new_connection on_container
  default_container-Connects host port cl w =
      placed-Quiet cl w (insert_host h host port cl.container w)
        (insert_host-Found h never_null host port cl.container w)

check_node_returns :
    (index : ℕ) (node : Option SlotConnection)
    → ((con : SlotConnection) × (check_node index node ≡ ok con))
      ⊎ (check_node index node ≡ throw node_search)
unfolding check_node
check_node_returns index none = inr refl
check_node_returns index (some (range, con)) =
    elim (Bool-cases (ltb index range.first || ltb range.second index)) [
      | inl outside_range ↦ rw outside_range (inr refl)
      | inr inside ↦ rw inside (inl (_, refl))
    ]

module _ {E : Type 0} (h : Hiredis E) where
  served-Quiet :
      (index : ℕ) (node : Option SlotConnection) (cl : Cluster DefaultContainer) (w : World E)
      → Quiet (λ (con : SlotConnection). Unit {0}) (trace w.log) (check_node index node, cl, w)
  served-Quiet index node cl w = elim (check_node_returns index node) [
    | inl (con, found) ↦ rw found (tt, refl)
    | inr missing ↦ rw missing refl
  ]

  when_ready-Quiet :
      (is_ready : Bool) (hashed : Option ℕ) (slot : ℕ) (cl : Cluster DefaultContainer) (w : World E)
      → hashed ≡ some slot
      → Quiet
          (λ (con : SlotConnection). Unit {0})
          (trace w.log)
          ((if is_ready then serve_slot (default_container h) hashed else raise not_initialized) cl
            w)
  unfolding serve_slot on_container Container.get_connection search_by_slots
  when_ready-Quiet false hashed slot cl w e = refl
  when_ready-Quiet true none slot cl w e = cc
  when_ready-Quiet true (some index) slot cl w e = served-Quiet index _ cl w

  -- `getConnection` of a key that has a slot returns or throws.
  pub get_connection-Quiet :
      (key : Text) (slot : ℕ) (cl : Cluster DefaultContainer) (w : World E)
      → slot_by_key key (length key) ≡ some slot
      → Quiet
          (λ (con : SlotConnection). Unit {0})
          (trace w.log)
          (get_connection (default_container h) key cl w)
  unfolding get_connection
  get_connection-Quiet key slot cl w hashed =
      when_ready-Quiet cl.ready_to_use (slot_by_key key (length key)) slot cl w hashed
