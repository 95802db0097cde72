-- ===== src/Container/Hosts.antt =====
-- `insert(string, string)`: a connection to a host, found or opened.
use cpp_hiredis_cluster.Base.{
  Bool, true, false, ◌∷◌, Option, none, some, ◌≡◌, refl, ap, ◌⊎◌, inl, inr, Option-cases, ◌++◌,
}
use cpp_hiredis_cluster.Int.{ℤ}
use cpp_hiredis_cluster.Text.{Text, codes, c_string, text_ltb}
use cpp_hiredis_cluster.Text.Stoi
use cpp_hiredis_cluster.Text.Stoi.{Parsed, stoi}
use cpp_hiredis_cluster.Effect.Exception.{Exception, std_invalid_argument, std_out_of_range}
use cpp_hiredis_cluster.Effect.Monad.{Outcome, ok, throw, Conn, Hiredis, World, after, opened}
use cpp_hiredis_cluster.Effect.Calls.{open_connection, is_usable, log_opened}
use cpp_hiredis_cluster.Container.Types.{HostConnection}
use cpp_hiredis_cluster.Container.OrderedMap.{map_at}
use cpp_hiredis_cluster.Container.{
  DefaultContainer, insert_host, connect_host, store_host, parsed_port,
}

-- `connect` of include/asynchirediscommand.h throws where it has no connection.
abbrev pub NeverNull : {E : Type 0} → Hiredis E → Type 0
NeverNull {E} h =
    (host : Text) (port : ℤ) (e : E)
    → ((con : Conn) × ((h.connect host port e).0 ≡ ok (some con)))
      ⊎ ((x : Exception) × ((h.connect host port e).0 ≡ throw x))

module _ {E : Type 0} (h : Hiredis E) (never_null : NeverNull h) where
  store_host-ok :
      (key : Text) (conn : Option Conn) (usable : Bool) (s : DefaultContainer) (w : World E)
      → (s' : DefaultContainer) × (store_host h key conn usable s w ≡ (ok tt, s', w))
  unfolding store_host
  store_host-ok key none usable s w = (s, refl)
  store_host-ok key (some c) false s w = (s, refl)
  store_host-ok key (some c) true s w = (_, refl)

  -- A call that returns a connection, with at most one opened; or throws, with none.
  abbrev pub Found : World E → Outcome HostConnection × DefaultContainer × World E → Type 0
  Found w t =
      ((key : Text) × (con : Conn) × (s : DefaultContainer) × (w' : World E) × (t
          ≡ (ok (key, some con), s, w'))
        × ((w'.log ≡ w.log) ⊎ (w'.log ≡ opened con ∷ w.log)))
      ⊎ ((x : Exception) × (s : DefaultContainer) × (w' : World E) × (t ≡ (throw x, s, w'))
          × (w'.log ≡ w.log))

  connect_host-Found :
      (key host port : Text) (p : Parsed) (s : DefaultContainer) (w : World E)
      → stoi port ≡ p
      → Found w (connect_host h key host port s w)
  unfolding connect_host parsed_port open_connection log_opened
  connect_host-Found key host port Stoi.Parsed.invalid s w e =
      inr (std_invalid_argument, s, w, rw e refl, refl)
  connect_host-Found key host port Stoi.Parsed.too_large s w e =
      inr (std_out_of_range, s, w, rw e refl, refl)
  connect_host-Found key host port (Stoi.Parsed.value n) s w e =
      let out : E = (h.connect (c_string host) n w.outside).1 in
      elim (never_null (c_string host) n w.outside) [
        | inl (con, opens) ↦
            let w' : World E = record { outside = out; log = opened con ∷ w.log } in
            let stored = store_host-ok key (some con) (is_usable h (some con) out) s w' in
            inl (
              key,
              con,
              stored.0,
              w',
              rw (e, opens) (ap (after (λ _ s w. (ok (key, some con), s, w))) stored.1),
              inr refl,
            )
        | inr (x, throws) ↦
            inr (x, s, record { outside = out; log = w.log }, rw (e, throws) refl, refl)
      ]

  -- The port is parsed, and the connection opened, only where the map has no connection yet.
  pub insert_host-Found :
      (host port : Text) (s : DefaultContainer) (w : World E)
      → Found w (insert_host h host port s w)
  unfolding insert_host
  insert_host-Found host port s w =
      let key = host ++ (codes ":" ++ port) in
      elim (Option-cases (map_at text_ltb key s.connections)) [
        | inr (con, found) ↦ inl (key, con, s, w, rw (found, insert_host) refl, inl refl)
        | inl missing ↦
            rw (missing, insert_host) (connect_host-Found key host port (stoi port) s w refl)
      ]
