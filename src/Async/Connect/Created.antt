-- ===== src/Async/Connect/Created.antt =====
-- `createCluster` from its first call to its return.
use cpp_hiredis_cluster.Base.{
  Bool, true, false, List, [], Option, none, some, ◌≡◌, refl, sym, ap, length,
}
use cpp_hiredis_cluster.Int.{ℤ, pos}
use cpp_hiredis_cluster.Text.{Text}
use cpp_hiredis_cluster.Effect.Reply.{Reply, Replies, RedisReply, end, element}
use cpp_hiredis_cluster.Effect.Monad.{
  Outcome, ok, throw, fault, blocked, Conn, Hiredis, World, pure, ◌>>◌,
}
use cpp_hiredis_cluster.Effect.Calls.{request, is_usable, free_reply, open_connection}
use cpp_hiredis_cluster.Container.Types.{SlotRange}
use cpp_hiredis_cluster.Container.Interface.{ConnectionContainer}
use cpp_hiredis_cluster.Container.{DefaultContainer, insert_slots, store_node}
use cpp_hiredis_cluster.Process.{check_critical, is_broken, check_reply}
use cpp_hiredis_cluster.Cluster.{
  cmd_init, Cluster, Entry, parse_entry, init_entries, insert_entry, init, init_reply, set_ready,
  construct, constructed, on_container,
}
use cpp_hiredis_cluster.Command.{dial, free_context, construct_in, with_reply, free_pointer}
use cpp_hiredis_cluster.Async.Connect.{
  ContextPointer, null, deleted, at, Linked, AsyncSockets, connect, linked_hiredis, nodes_container,
  new_context, set_cluster, with_cluster, create_on, create_pointer, create_cluster,
}
use cpp_hiredis_cluster.Async.Connect.Leads.{Ends, Leads, after-Ends, bind-Leads, throw_with-Leads}
use cpp_hiredis_cluster.Async.Connect.Counting.{Counts, CountsAt, connect-Kept}

module _ {E : Type 0} (base : Hiredis E) (a : AsyncSockets E) where
  abbrev h : Hiredis (Linked E)
  h = linked_hiredis base a

  abbrev c : ConnectionContainer (Linked E)
  c = nodes_container base a

  abbrev Counting : Linked E → Type 0
  Counting = Counts false

  abbrev empty : DefaultContainer
  empty = record { has_disconnect = true; connections = []; nodes = [] }

  -- The start: no connection has the context yet.
  abbrev Fresh : Linked E → Type 0
  Fresh l = (l.tied ≡ []) × (l.misused ≡ false)

  any_end :
      {A S : Type 0} (r : Outcome A) (s : S) (w : World (Linked E))
      → Counting w.outside
      → Ends Counting (r, s, w)
  any_end (ok x) s w e = e
  any_end (throw x) s w e = e.1
  any_end fault s w e = e.1
  any_end blocked s w e = e.1

  store_node-Leads :
      (slots : SlotRange) (conn : Option Conn) (usable : Bool)
      → Leads Counting (store_node h slots conn usable) Counting
  unfolding store_node
  store_node-Leads slots none usable s w e = e.1
  store_node-Leads slots (some con) true s w e = e
  store_node-Leads slots (some con) false s w e = e.1

  insert_slots-Leads :
      (slots : SlotRange) (host : Text) (port : ℤ)
      → Leads Counting (insert_slots h slots host port) Counting
  unfolding insert_slots open_connection
  insert_slots-Leads slots host port s w e =
      after-Ends Counting Counting _ (open_connection h host port s w)
        (any_end (connect base a host port w.outside).0 s _
          (connect-Kept base a false host port w.outside e))
        (λ conn s w. store_node-Leads slots conn (is_usable h conn w.outside) s w)

  placed :
      {A : Type 0} (cl : Cluster DefaultContainer)
      (t : Outcome A × DefaultContainer × World (Linked E))
      → Ends Counting t
      → Ends Counting (t.0, record cl { container = t.1 }, t.2)
  placed cl (ok x, s, w) e = e
  placed cl (throw x, s, w) e = e
  placed cl (fault, s, w) e = e
  placed cl (blocked, s, w) e = e

  insert_entry-Leads :
      (root : RedisReply) (entry : Option Entry)
      → Leads Counting (insert_entry c root entry) Counting
  unfolding insert_entry on_container
  insert_entry-Leads root none s w e = throw_with-Leads _ Counting (some root) _ s w e.1
  insert_entry-Leads root (some entry) s w e =
      placed s _ (insert_slots-Leads entry.slots entry.host entry.port s.container w e)

  init_entries-Leads :
      (root : RedisReply) (elements : Replies)
      → Leads Counting (init_entries c root elements) Counting
  unfolding init_entries
  init_entries-Leads root end s w e = e
  init_entries-Leads root (element reply rest) s w e =
      after-Ends Counting Counting _ (insert_entry c root (parse_entry reply) s w)
        (insert_entry-Leads root (parse_entry reply) s w e) (λ u. init_entries-Leads root rest)

  init_reply-Leads : (root : RedisReply) (v : Reply) → Leads Counting (init_reply c root v) Counting
  unfolding init_reply set_ready
  init_reply-Leads root (Reply.array elements) s w e =
      after-Ends Counting Counting _ (init_entries c root elements s w)
        (init_entries-Leads root elements s w e) (λ u s w e. e)
  init_reply-Leads root (Reply.error t) s w e = throw_with-Leads _ Counting (some root) _ s w e.1
  init_reply-Leads root (Reply.string t) s w e = throw_with-Leads _ Counting (some root) _ s w e.1
  init_reply-Leads root (Reply.integer n) s w e = throw_with-Leads _ Counting (some root) _ s w e.1
  init_reply-Leads root Reply.nil s w e = throw_with-Leads _ Counting (some root) _ s w e.1
  init_reply-Leads root (Reply.status t) s w e = throw_with-Leads _ Counting (some root) _ s w e.1

  constructed-Ends :
      {S : Type 0} (s : S) (t : Outcome (Unit {0}) × Cluster DefaultContainer × World (Linked E))
      → Ends Counting t
      → Ends Counting ((constructed c t).0, s, (constructed c t).1)
  unfolding constructed
  constructed-Ends s (ok x, cl, w) e = e
  constructed-Ends s (throw x, cl, w) e = e
  constructed-Ends s (fault, cl, w) e = e
  constructed-Ends s (blocked, cl, w) e = e

  construct_in-Leads :
      (container : DefaultContainer) (r : RedisReply)
      → Leads Counting (construct_in h c container true true r) Counting
  unfolding construct_in construct init
  construct_in-Leads container r s w e = constructed-Ends s _ (init_reply-Leads r r.value _ w e)

  with_reply-Leads :
      (container : DefaultContainer) (reply : Option RedisReply)
      → Leads Counting (with_reply reply (construct_in h c container true true)) Counting
  unfolding with_reply
  with_reply-Leads container none s w e = e.1
  with_reply-Leads container (some r) s w e = construct_in-Leads container r s w e

  check_reply-Leads :
      (r : RedisReply) (v : Reply)
      → Leads {S = Unit {0}} Fresh (check_reply h r v true true []) Fresh
  unfolding check_reply
  check_reply-Leads r (Reply.error t) s w e = throw_with-Leads _ Fresh (some r) _ s w e.1
  check_reply-Leads r (Reply.string t) s w e = e
  check_reply-Leads r (Reply.array t) s w e = e
  check_reply-Leads r (Reply.integer t) s w e = e
  check_reply-Leads r Reply.nil s w e = e
  check_reply-Leads r (Reply.status t) s w e = e

  check_critical-Leads :
      (reply : Option RedisReply)
      → Leads {S = Unit {0}} Fresh (check_critical h reply true true [] none) Fresh
  unfolding check_critical is_broken
  check_critical-Leads none s w e = e.1
  check_critical-Leads (some r) s w e = check_reply-Leads r r.value s w e

  new_context-Leads : Leads Fresh (new_context {E = E}) Counting
  unfolding new_context
  new_context-Leads s w e = ((refl, ap (λ (l : List Conn). pos (length l)) (sym e.0)), e.1)

  with_cluster-CountsAt :
      (tied : List Conn) (p : ContextPointer)
      → CountsAt false tied p
      → CountsAt true tied (with_cluster p)
  unfolding with_cluster
  with_cluster-CountsAt tied null e = e
  with_cluster-CountsAt tied deleted e = e
  with_cluster-CountsAt tied (at context) e = (refl, e.1)

  set_cluster-Leads : Leads Counting (set_cluster {E = E}) (Counts true)
  unfolding set_cluster
  set_cluster-Leads s w e = (with_cluster-CountsAt w.outside.tied w.outside.context e.0, e.1)

  free_pointer-Leads :
      (reply : Option RedisReply)
      → Leads {E = E} {S = Unit {0}} (Counts true) (free_pointer reply) (Counts true)
  unfolding free_pointer free_reply
  free_pointer-Leads none s w e = e
  free_pointer-Leads (some r) s w e = e

  create_on-Leads : (con : Conn) → Leads Fresh (create_on base a con) (Counts true)
  unfolding create_on request free_context
  create_on-Leads con s w e =
      let reply : Option RedisReply = (base.request con cmd_init w.outside.outside).0 in
      bind-Leads Fresh Fresh (Counts true) (check_critical h reply true true [] none) _
        (check_critical-Leads reply)
        (λ u. bind-Leads Fresh Counting (Counts true) new_context _ new_context-Leads λ u.
          bind-Leads Counting Counting (Counts true)
            (with_reply reply (construct_in h c empty true true)) _ (with_reply-Leads empty reply)
            λ cluster.
              bind-Leads Counting (Counts true) (Counts true) set_cluster _ set_cluster-Leads λ u.
                bind-Leads (Counts true) (Counts true) (Counts true) (free_pointer reply)
                  (λ u. free_context h c con >> pure cluster) (free_pointer-Leads reply)
                  (λ u s w e. e))
        s _ e

  create_pointer-Leads :
      (con : Option Conn) (usable : Bool)
      → Leads Fresh (create_pointer base a con usable) (Counts true)
  unfolding create_pointer
  create_pointer-Leads none usable s w e = e.1
  create_pointer-Leads (some con) true s w e = create_on-Leads con s w e
  create_pointer-Leads (some con) false s w e = e.1

  -- `createCluster`, where no connection has the context yet and nothing was misused: if it returns
  -- a cluster, then the context has its cluster set and counts the connections that are tied to it;
  -- however it ends, no callback has read a context that is not there.
  pub create_cluster-Ends :
      (host : Text) (port : ℤ) (w : World (Linked E))
      → w.outside.tied ≡ []
      → w.outside.misused ≡ false
      → Ends (Counts true) (create_cluster base a host port tt w)
  unfolding create_cluster dial
  create_cluster-Ends host port w none_tied fine = create_pointer-Leads _ _ tt _ (none_tied, fine)
