-- ===== src/Async/Connect/Adapter.antt =====
-- include/adapters/boostasioadapter.h: `BoostAsioAdapter`, as the adapter of an asynchronous cluster.
use cpp_hiredis_cluster.Base.{
  Bool, true, false, List, [], ◌∷◌, ◌++◌, Option, none, some, ◌||◌, ◌==◌, ◌≡◌, arith, Bool-cases,
  Option-cases, inl, inr, if◌then◌else◌,
}
use cpp_hiredis_cluster.Int.{ℤ}
use cpp_hiredis_cluster.Text.{Text}
use cpp_hiredis_cluster.Effect.Monad.{Outcome, throw, Conn, Hiredis}
use cpp_hiredis_cluster.Effect.Exception.{connection_failed}
use cpp_hiredis_cluster.Boost.{Client, new_client}
use cpp_hiredis_cluster.Async.Connect.{
  ConnectContext, ContextPointer, null, deleted, at, Linked, AsyncSockets, holds, remove,
  count_down, disconnect_cb, disconnected, attached, reached, connect_at, connect, disconnect,
}
use cpp_hiredis_cluster.Async.Connect.Counting.{Happens, none_yet, connects, disconnects, loses}

-- `client_vector_`, with the context that each client was made for.
pub record BoostAsioAdapter : Type 0 where
  pub clients : List (Conn × Client)

-- `attachContext`, which always returns `REDIS_OK`.
unfoldable pub attach_context : Conn → BoostAsioAdapter → Bool × BoostAsioAdapter
attach_context con s = (true, record s { clients = s.clients ++ ((con, new_client) ∷ []) })

-- What is outside the cluster, with the adapter.
pub record Adapted (E : Type 0) : Type 0 where
  pub rest : E
  pub adapter : BoostAsioAdapter

-- The calls of a cluster whose connections this adapter takes.
abbrev pub boost_sockets : {E : Type 0} → AsyncSockets E → AsyncSockets (Adapted E)
boost_sockets a = record {
  connect_async = λ host port l.
      let (con, e) = a.connect_async host port l.rest in (con, record l { rest = e });
  attach =
      λ con l. let (taken, s) = attach_context con l.adapter in (taken, record l { adapter = s });
  disconnect_async =
      λ con l. let (now, e) = a.disconnect_async con l.rest in (now, record l { rest = e });
}

abbrev pub has_client : Conn → List (Conn × Client) → Bool
has_client con [] = false
has_client con ((c, client) ∷ m) = (c == con) || has_client con m

abbrev pub AllServed : List (Conn × Client) → List Conn → Type 0
AllServed clients [] = Unit {0}
AllServed clients (con ∷ tied) = (has_client con clients ≡ true) × AllServed clients tied

-- Every connection that is tied to the context has a client.
abbrev pub HasClients : {E : Type 0} → Linked (Adapted E) → Type 0
HasClients l = AllServed l.outside.adapter.clients l.tied

has_client-append :
    (con : Conn) (m n : List (Conn × Client))
    → has_client con m ≡ true
    → has_client con (m ++ n) ≡ true
has_client-append con [] n h = cc
has_client-append con ((c, client) ∷ m) n h = ground (arith, has_client-append con m n)

has_client_last :
    (con : Conn) (client : Client) (m : List (Conn × Client))
    → has_client con (m ++ ((con, client) ∷ [])) ≡ true
has_client_last con client [] = ground arith
has_client_last con client ((c, other) ∷ m) = ground (arith, has_client_last con client m)

AllServed-append :
    (m n : List (Conn × Client)) (tied : List Conn) → AllServed m tied → AllServed (m ++ n) tied
AllServed-append m n [] all = tt
AllServed-append m n (con ∷ tied) all =
    (has_client-append con m n all.0, AllServed-append m n tied all.1)

AllServed-remove :
    (m : List (Conn × Client)) (con : Conn) (tied : List Conn)
    → AllServed m tied
    → AllServed m (remove con tied)
unfolding remove
AllServed-remove m con [] all = tt
AllServed-remove m con (c ∷ tied) all = elim (Bool-cases (c == con)) [
  | inl same ↦ rw same all.1
  | inr other ↦ rw other (all.0, AllServed-remove m con tied all.1)
]

module _ {E : Type 0} where
  disconnect_cb-HasClients : (l : Linked (Adapted E)) → HasClients l → HasClients (disconnect_cb l)
  unfolding disconnect_cb
  disconnect_cb-HasClients l all = elim (Option-cases (count_down l.context)) [
    | inl missing ↦ rw (missing, disconnect_cb) all
    | inr (p, there) ↦ rw (there, disconnect_cb) all
  ]

  disconnected-HasClients :
      (con : Conn) (l : Linked (Adapted E)) → HasClients l → HasClients (disconnected con l)
  unfolding disconnected
  disconnected-HasClients con l all =
      let fewer = AllServed-remove l.outside.adapter.clients con l.tied all in
      elim (Bool-cases (holds con l.tied)) [
        | inl there ↦ rw there (disconnect_cb-HasClients _ fewer)
        | inr absent ↦ rw absent fewer
      ]

module _ {E : Type 0} (base : Hiredis (Adapted E)) (a : AsyncSockets E) where
  disconnect-HasClients :
      (con : Conn) (l : Linked (Adapted E))
      → HasClients l
      → HasClients (disconnect base (boost_sockets a) con l)
  unfolding disconnect
  disconnect-HasClients con l all = elim (Bool-cases (holds con l.contexts)) [
    | inl there ↦ elim (Bool-cases (a.disconnect_async con l.outside.rest).0) [
      | inl now ↦
          rw (there, now)
            (disconnected-HasClients con
              (record l {
                outside = record l.outside { rest = (a.disconnect_async con l.outside.rest).1 };
              })
              all)
      | inr later ↦ rw (there, later) all
    ]
    | inr absent ↦ rw absent all
  ]

  reached-HasClients :
      (c : ConnectContext) (con : Option Conn) (l : Linked (Adapted E))
      → HasClients l
      → HasClients (reached base (boost_sockets a) c con l).1
  unfolding reached attached attach_context
  reached-HasClients c none l all = all
  reached-HasClients c (some con) l all = elim (Bool-cases (base.has_error con l.outside)) [
    | inl broken ↦ rw broken all
    | inr sound ↦ rw sound (
      has_client_last con new_client l.outside.adapter.clients,
      AllServed-append l.outside.adapter.clients ((con, new_client) ∷ []) l.tied all,
    )
  ]

  choose-HasClients :
      (b : Bool) (x y : Outcome (Option Conn) × Linked (Adapted E))
      → HasClients x.1
      → HasClients y.1
      → HasClients (if b then x else y).1
  choose-HasClients true x y p q = p
  choose-HasClients false x y p q = q

  connect_at-HasClients :
      (p : ContextPointer) (host : Text) (port : ℤ) (l : Linked (Adapted E))
      → HasClients l
      → HasClients (connect_at base (boost_sockets a) p host port l).1
  unfolding connect_at
  connect_at-HasClients null host port l all = all
  connect_at-HasClients deleted host port l all = all
  connect_at-HasClients (at c) host port l all =
      let (con, e) = a.connect_async host port l.outside.rest in
      choose-HasClients c.has_adapter
        (reached base (boost_sockets a) c con
          (record l { outside = record l.outside { rest = e } }))
        (throw connection_failed, l)
        (reached-HasClients c con (record l { outside = record l.outside { rest = e } }) all) all

  connect-HasClients :
      (host : Text) (port : ℤ) (l : Linked (Adapted E))
      → HasClients l
      → HasClients (connect base (boost_sockets a) host port l).1
  unfolding connect
  connect-HasClients host port l all = connect_at-HasClients l.context host port l all

  -- With a `BoostAsioAdapter`, any sequence of connects, disconnects and lost connections keeps a
  -- client in the adapter for every connection that is tied to the context.
  pub Happens-HasClients :
      {l m : Linked (Adapted E)} → Happens base (boost_sockets a) l m → HasClients l → HasClients m
  Happens-HasClients none_yet all = all
  Happens-HasClients (connects host port before) all =
      connect-HasClients host port _ (Happens-HasClients before all)
  Happens-HasClients (disconnects con open_there before) all =
      disconnect-HasClients con _ (Happens-HasClients before all)
  Happens-HasClients (loses con before) all =
      disconnected-HasClients con _ (Happens-HasClients before all)
