-- ===== src/Command/Spares.antt =====
-- The calls of `createCluster` that close no connection.
use cpp_hiredis_cluster.Base.{
  Bool, true, false, ◌&&◌, List, [], Option, none, some, if◌then◌else◌, ◌≡◌, refl, ◌∙◌,
}
use cpp_hiredis_cluster.Int.{ℤ}
use cpp_hiredis_cluster.Text.{Text}
use cpp_hiredis_cluster.Effect.Reply.{Reply, Replies, RedisReply, end, element}
use cpp_hiredis_cluster.Effect.Exception.{Exception, invalid_argument}
use cpp_hiredis_cluster.Effect.Monad.{
  Outcome, ok, throw, fault, blocked, Conn, Event, Hiredis, World, Action, after,
}
use cpp_hiredis_cluster.Effect.Calls.{
  is_usable, throw_with, free_reply, open_connection, log_opened, log_received,
}
use cpp_hiredis_cluster.Container.Types.{SlotRange}
use cpp_hiredis_cluster.Container.Interface.{default_container}
use cpp_hiredis_cluster.Container.{DefaultContainer, insert_slots, store_node}
use cpp_hiredis_cluster.Container.Close.{times_closed}
use cpp_hiredis_cluster.Process.{check_critical, is_broken, check_reply}
use cpp_hiredis_cluster.Cluster.{
  Cluster, Entry, parse_entry, init_entries, insert_entry, init, init_reply, set_ready, construct,
  constructed, on_container,
}
use cpp_hiredis_cluster.Command.{construct_in, with_reply, free_pointer}

module _ (d : Conn) where
  pub log_received-Spares :
      (r : Option RedisReply) (log : List Event)
      → times_closed d (log_received r log) ≡ times_closed d log
  log_received-Spares none log = refl
  log_received-Spares (some r) log = refl

  log_opened-Spares :
      (r : Outcome (Option Conn)) (log : List Event)
      → times_closed d (log_opened r log) ≡ times_closed d log
  unfolding log_opened
  log_opened-Spares (ok none) log = refl
  log_opened-Spares (ok (some c)) log = refl
  log_opened-Spares (throw x) log = refl
  log_opened-Spares fault log = refl
  log_opened-Spares blocked log = refl

  module _ {S E : Type 0} where
    -- The call closes the connection no more often.
    abbrev pub Spares : {A : Type 0} → Action S E A → Type 0
    Spares m = (s : S) (w : World E) → times_closed d (m s w).2.log ≡ times_closed d w.log

    after-Spares :
        {A B : Type 0} (f : A → Action S E B) (t : Outcome A × S × World E)
        → ((a : A) → Spares (f a))
        → times_closed d (after f t).2.log ≡ times_closed d t.2.log
    after-Spares f (ok a, s, w) k = k a s w
    after-Spares f (throw x, s, w) k = refl
    after-Spares f (fault, s, w) k = refl
    after-Spares f (blocked, s, w) k = refl

    pub bind-Spares :
        {A B : Type 0} (m : Action S E A) (f : A → Action S E B)
        → Spares m
        → ((a : A) → Spares (f a))
        → Spares (λ s w. after f (m s w))
    bind-Spares m f spares k s w = after-Spares f (m s w) k ∙ spares s w

    throw_with-Spares :
        (A : Type 0) (r : Option RedisReply) (x : Exception) → Spares (throw_with {A = A} r x)
    unfolding throw_with free_reply
    throw_with-Spares A none x s w = refl
    throw_with-Spares A (some r) x s w = refl

  module _ {E : Type 0} (h : Hiredis E) where
    store_node-Spares :
        (slots : SlotRange) (conn : Option Conn) (usable : Bool)
        → Spares (store_node h slots conn usable)
    unfolding store_node
    store_node-Spares slots none usable s w = refl
    store_node-Spares slots (some con) true s w = refl
    store_node-Spares slots (some con) false s w = refl

    insert_slots-Spares :
        (slots : SlotRange) (host : Text) (port : ℤ) → Spares (insert_slots h slots host port)
    unfolding insert_slots open_connection
    insert_slots-Spares slots host port =
        bind-Spares (open_connection h host port) _
          (λ s w. log_opened-Spares (h.connect host port w.outside).0 w.log)
          (λ conn s w. store_node-Spares slots conn (is_usable h conn w.outside) s w)

    insert_entry-Spares :
        (root : RedisReply) (entry : Option Entry)
        → Spares (insert_entry (default_container h) root entry)
    unfolding insert_entry on_container
    insert_entry-Spares root none s w = throw_with-Spares _ (some root) _ s w
    insert_entry-Spares root (some entry) s w =
        insert_slots-Spares entry.slots entry.host entry.port s.container w

    init_entries-Spares :
        (root : RedisReply) (elements : Replies)
        → Spares (init_entries (default_container h) root elements)
    unfolding init_entries
    init_entries-Spares root end s w = refl
    init_entries-Spares root (element reply rest) s w =
        bind-Spares (insert_entry (default_container h) root (parse_entry reply)) _
          (insert_entry-Spares root (parse_entry reply)) (λ u. init_entries-Spares root rest) s w

    init_reply-Spares :
        (root : RedisReply) (v : Reply) → Spares (init_reply (default_container h) root v)
    unfolding init_reply set_ready
    init_reply-Spares root (Reply.array elements) s w =
        bind-Spares (init_entries (default_container h) root elements) _
          (init_entries-Spares root elements) (λ u s w. refl) s w
    init_reply-Spares root (Reply.error t) s w = throw_with-Spares _ (some root) _ s w
    init_reply-Spares root (Reply.string t) s w = throw_with-Spares _ (some root) _ s w
    init_reply-Spares root (Reply.integer n) s w = throw_with-Spares _ (some root) _ s w
    init_reply-Spares root Reply.nil s w = throw_with-Spares _ (some root) _ s w
    init_reply-Spares root (Reply.status t) s w = throw_with-Spares _ (some root) _ s w

    constructed-Spares :
        (t : Outcome (Unit {0}) × Cluster DefaultContainer × World E)
        → times_closed d (constructed (default_container h) t).1.log ≡ times_closed d t.2.log
    unfolding constructed
    constructed-Spares (ok u, s, w) = refl
    constructed-Spares (throw x, s, w) = refl
    constructed-Spares (fault, s, w) = refl
    constructed-Spares (blocked, s, w) = refl

    choose-Spares :
        {A S : Type 0} (b : Bool) (m n : Action S E A)
        → Spares m
        → Spares n
        → Spares (if b then m else n)
    choose-Spares true m n p q = p
    choose-Spares false m n p q = q

    construct_in-Spares :
        (container : DefaultContainer) (has_connect has_disconnect : Bool) (r : RedisReply)
        → Spares (construct_in h (default_container h) container has_connect has_disconnect r)
    unfolding construct_in construct init
    construct_in-Spares container has_connect has_disconnect r s w =
        let fresh : Cluster DefaultContainer = record {
          container = container;
          user_moved_fn = none;
          ready_to_use = false;
          moved = false;
        } in
        let filled = init_reply (default_container h) r r.value in
        let refused : Action (Cluster DefaultContainer) E (Unit {0}) =
          throw_with (some r) invalid_argument in
        constructed-Spares ((if has_connect && has_disconnect then filled else refused) fresh w)
        ∙ choose-Spares (has_connect && has_disconnect) filled refused (init_reply-Spares r r.value)
            (throw_with-Spares (Unit {0}) (some r) invalid_argument) fresh w

    pub built-Spares :
        (container : DefaultContainer) (has_connect has_disconnect : Bool) (r : Option RedisReply)
        → Spares (
            with_reply r
              (construct_in h (default_container h) container has_connect has_disconnect))
    unfolding with_reply
    built-Spares container has_connect has_disconnect none s w = refl
    built-Spares container has_connect has_disconnect (some r) s w =
        construct_in-Spares container has_connect has_disconnect r s w

    check_reply-Spares :
        {S : Type 0} (r : RedisReply) (v : Reply) → Spares {S = S} (check_reply h r v true true [])
    unfolding check_reply
    check_reply-Spares r (Reply.error t) s w = throw_with-Spares _ (some r) _ s w
    check_reply-Spares r (Reply.string t) s w = refl
    check_reply-Spares r (Reply.array t) s w = refl
    check_reply-Spares r (Reply.integer t) s w = refl
    check_reply-Spares r Reply.nil s w = refl
    check_reply-Spares r (Reply.status t) s w = refl

    pub check_critical-Spares :
        {S : Type 0} (r : Option RedisReply) → Spares {S = S} (check_critical h r true true [] none)
    unfolding check_critical is_broken
    check_critical-Spares none s w = refl
    check_critical-Spares (some r) s w = check_reply-Spares r r.value s w

    pub free_pointer-Spares :
        {S : Type 0} (r : Option RedisReply) → Spares {S = S} {E = E} (free_pointer r)
    unfolding free_pointer free_reply
    free_pointer-Spares none s w = refl
    free_pointer-Spares (some r) s w = refl
