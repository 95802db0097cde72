-- ===== src/Command/Replies.antt =====
-- Who owns the replies of a synchronous command.
use cpp_hiredis_cluster.Base.{
  ℕ, Bool, true, false, List, [], ◌∷◌, Option, none, some, ◌≡◌, refl, inl, inr, length, Bool-cases,
  Option-cases, if◌then◌else◌,
}
use cpp_hiredis_cluster.Text.{Text, codes}
use cpp_hiredis_cluster.SlotHash.{slot_by_key}
use cpp_hiredis_cluster.Effect.Reply.{RedisReply}
use cpp_hiredis_cluster.Effect.Monad.{
  Outcome, ok, throw, fault, blocked, Conn, Hiredis, World, Action, after, pure,
}
use cpp_hiredis_cluster.Effect.Calls.{free_reply, request, throw_with, is_usable}
use cpp_hiredis_cluster.Effect.Live.{
  live, Owns, live-received, live-freed, KeepsReplies, NeverThrows, Ends, Ends-keep, Ends-return,
  Ends-free,
}
use cpp_hiredis_cluster.Container.Types.{SlotConnection, HostConnection}
use cpp_hiredis_cluster.Container.Interface.{ConnectionContainer}
use cpp_hiredis_cluster.Container.Laws.{RepliesKept}
use cpp_hiredis_cluster.Process.{
  Processed, ProcessState, moved, ask, ready, clusterdown, failed, process_result, is_broken,
}
use cpp_hiredis_cluster.Process.Redirect.{FitsSize, process_result-total}
use cpp_hiredis_cluster.Process.Critical.{request_checked-Ends}
use cpp_hiredis_cluster.Cluster.{
  Cluster, on_container, serve_slot, get_connection, create_new_connection, release_slot,
  release_host, set_moved,
}
use cpp_hiredis_cluster.Command.{
  ask_on, ask_pointer, follow_ask, moved_on, moved_pointer, follow_moved, dispatch, with_reply,
  free_pointer, process, command, alt_command, delete_reply,
}

-- Just the replies `base` are alive behind a call that comes back.
abbrev pub Kept : {S E : Type 0} → List ℕ → Outcome (Unit {0}) × S × World E → Type 0
Kept base (ok done, s, w) = live w.log ≡ some base
Kept base (throw x, s, w) = live w.log ≡ some base
Kept base (fault, s, w) = Unit {0}
Kept base (blocked, s, w) = Unit {0}

module _ {E : Type 0} (h : Hiredis E) (c : ConnectionContainer E)
    (user_moved : ℕ → Action (Cluster c.State) E (Unit {0})) (kept : RepliesKept c)
    (user_keeps : (fn : ℕ) → KeepsReplies (user_moved fn))
    (user_never_throws : (fn : ℕ) → NeverThrows (user_moved fn)) (base : List ℕ) where
  request-Ends :
      (con : Conn) (cmd : Text)
      (f : Option RedisReply → Action (Cluster c.State) E (Option RedisReply))
      → Ends base base (f none)
      → ((r : RedisReply) → Ends (r.address ∷ base) base (f (some r)))
      → Ends base base (λ s w. after f (request h con cmd s w))
  unfolding request
  request-Ends con cmd f missing got s w e = elim (Option-cases (h.request con cmd w.outside).0) [
    | inl none_there ↦ rw none_there (missing s _ e)
    | inr (r, there) ↦ rw there (got r s _ (live-received r.address base w.log e))
  ]

  release_host-KeepsReplies : (con : HostConnection) → KeepsReplies (release_host c con)
  unfolding release_host on_container
  release_host-KeepsReplies con s w = kept.release_host_keeps con s.container w

  release_host-NeverThrows : (con : HostConnection) → NeverThrows (release_host c con)
  unfolding release_host on_container
  release_host-NeverThrows con s w = kept.release_host_never_throws con s.container w

  set_moved-KeepsReplies : KeepsReplies (set_moved c user_moved)
  unfolding set_moved
  set_moved-KeepsReplies s w = elim (Option-cases s.user_moved_fn) [
    | inl none_set ↦ rw none_set refl
    | inr (fn, set) ↦ rw set (user_keeps fn _ w)
  ]

  set_moved-NeverThrows : NeverThrows (set_moved c user_moved)
  unfolding set_moved
  set_moved-NeverThrows s w = elim (Option-cases s.user_moved_fn) [
    | inl none_set ↦ rw none_set (λ x e. cc)
    | inr (fn, set) ↦ rw set (user_never_throws fn _ w)
  ]

  ask_on-Ends :
      (con : Conn) (cmd : Text) (hcon : HostConnection)
      → Ends base base (ask_on h c user_moved con cmd hcon)
  unfolding ask_on free_pointer is_broken
  ask_on-Ends con cmd hcon =
      request_checked-Ends h base con (codes "ASKING") true [] none _ (λ r. Unit {0})
        (λ e r got. tt) (λ e x. cc)
        λ asked passed. Ends-free base asked _ (
          request_checked-Ends h base con cmd false [] none _ (λ r. Unit {0}) (λ e r got. tt)
            (λ e x. cc)
            λ reply passed.
              Ends-return (reply.address ∷ base) base (release_host c hcon) _
                (release_host-NeverThrows hcon) (release_host-KeepsReplies hcon) (λ u s w e. e))

  ask_pointer-Ends :
      (hcon : HostConnection) (cmd : Text) (con : Option Conn)
      → Ends base base (ask_pointer h c user_moved hcon cmd con)
  unfolding ask_pointer
  ask_pointer-Ends hcon cmd none s w e = e
  ask_pointer-Ends hcon cmd (some con) s w e =
      elim (Bool-cases (is_usable h (some con) w.outside)) [
        | inl usable ↦ rw usable (ask_on-Ends con cmd hcon s w e)
        | inr broken ↦ rw broken (
            Ends-return base base (release_host c hcon) _ (release_host-NeverThrows hcon)
              (release_host-KeepsReplies hcon) (λ u s w e. e) s w e)
      ]

  moved_on_tail :
      (hcon : HostConnection) (now : List ℕ) (reply : Option RedisReply)
      → Ends {S = Cluster c.State} {E = E} now base (pure reply)
      → Ends {S = Cluster c.State} {E = E} now base (λ s w.
        after
          (λ _ s w. after (λ _. pure reply) (release_host c hcon s w))
          (set_moved c user_moved s w))
  moved_on_tail hcon now reply done =
      Ends-return now base (set_moved c user_moved) _ set_moved-NeverThrows set_moved-KeepsReplies
        λ u.
          Ends-return now base (release_host c hcon) _ (release_host-NeverThrows hcon)
            (release_host-KeepsReplies hcon) (λ u. done)

  moved_on-Ends :
      (con : Conn) (cmd : Text) (hcon : HostConnection)
      → Ends base base (moved_on h c user_moved con cmd hcon)
  unfolding moved_on
  moved_on-Ends con cmd hcon =
      request-Ends con cmd _ (moved_on_tail hcon base none (λ s w e. e))
        λ reply. moved_on_tail hcon (reply.address ∷ base) (some reply) (λ s w e. e)

  moved_pointer-Ends :
      (hcon : HostConnection) (cmd : Text) (con : Option Conn)
      → Ends base base (moved_pointer h c user_moved hcon cmd con)
  unfolding moved_pointer
  moved_pointer-Ends hcon cmd none s w e = e
  moved_pointer-Ends hcon cmd (some con) s w e =
      elim (Bool-cases (is_usable h (some con) w.outside)) [
        | inl usable ↦ rw usable (moved_on-Ends con cmd hcon s w e)
        | inr broken ↦ rw broken e
      ]

  create_new_connection-KeepsReplies :
      (host port : Text) → KeepsReplies (create_new_connection c host port)
  unfolding create_new_connection on_container
  create_new_connection-KeepsReplies host port s w = kept.insert_host_keeps host port s.container w

  dispatch-Ends :
      (state : ProcessState) (r : RedisReply) (cmd : Text) (p : Processed)
      → Ends (r.address ∷ base) base (dispatch h c user_moved state r cmd p)
  unfolding dispatch follow_ask follow_moved throw_with
  dispatch-Ends ask r cmd p s w e =
      Ends-free base r _
        (Ends-keep base (create_new_connection c p.host p.port) _
          (create_new_connection-KeepsReplies p.host p.port)
          λ hcon. ask_pointer-Ends hcon cmd hcon.1)
        s w e
  dispatch-Ends moved r cmd p s w e =
      Ends-free base r _
        (Ends-keep base (create_new_connection c p.host p.port) _
          (create_new_connection-KeepsReplies p.host p.port)
          λ hcon. moved_pointer-Ends hcon cmd hcon.1)
        s w e
  dispatch-Ends ready r cmd p s w e = e
  dispatch-Ends clusterdown r cmd p s w e = live-freed r.address base w.log e
  dispatch-Ends failed r cmd p s w e = live-freed r.address base w.log e

  serve_slot-KeepsReplies : (slot : Option ℕ) → KeepsReplies (serve_slot c slot)
  unfolding serve_slot on_container
  serve_slot-KeepsReplies none s w = refl
  serve_slot-KeepsReplies (some slot) s w = kept.get_connection_keeps slot s.container w

  choose-KeepsReplies :
      {A : Type 0} (b : Bool) (m n : Action (Cluster c.State) E A)
      → KeepsReplies m
      → KeepsReplies n
      → KeepsReplies (if b then m else n)
  choose-KeepsReplies true m n p q = p
  choose-KeepsReplies false m n p q = q

  get_connection-KeepsReplies : (key : Text) → KeepsReplies (get_connection c key)
  unfolding get_connection
  get_connection-KeepsReplies key s w =
      choose-KeepsReplies s.ready_to_use _ _
        (serve_slot-KeepsReplies (slot_by_key key (length key))) (λ s w. refl) s w

  release_slot-Ends :
      (con : SlotConnection) (now : List ℕ) (k : Action (Cluster c.State) E (Option RedisReply))
      → Ends now base k
      → Ends now base (λ s w. after (λ _. k) (release_slot c con s w))
  unfolding release_slot on_container
  release_slot-Ends con now k ends =
      Ends-return now base (release_slot c con) _
        (λ s w. kept.release_slot_never_throws con s.container w)
        (λ s w. kept.release_slot_keeps con s.container w) (λ u. ends)

  understood-Ends :
      (r : RedisReply) (cmd : Text)
      → FitsSize r.value
      → Ends {S = Cluster c.State} {E = E} (r.address ∷ base) base (λ s w.
        after (λ p. dispatch h c user_moved p.state r cmd p) (process_result r.value, s, w))
  understood-Ends r cmd fits s w e =
      let (p, there) = process_result-total r.value fits in
      rw there (dispatch-Ends p.state r cmd p s w e)

  -- What hiredis documents of `redisGetReply`: on an error no reply is stored, and a reply's text
  -- is held in memory.
  module _
      (silent : (con : Conn) (cmd : Text) (e : E)
        → h.has_error con (h.request con cmd e).1 ≡ true
        → (h.request con cmd e).0 ≡ none)
      (fits : (con : Conn) (cmd : Text) (e : E) (r : RedisReply)
        → (h.request con cmd e).0 ≡ some r
        → FitsSize r.value) where
    -- A command that starts while just the replies `base` are alive: if it returns a reply, `base`
    -- and this reply are alive at the end; if it returns an unset pointer or throws, just `base`.
    -- So every other reply was freed, and none twice. This is for a container and a user callback
    -- that neither receive nor free replies, where releasing a connection and the callback do not
    -- throw, and for a hiredis that stores no reply when the connection has an error and whose
    -- texts fit a `size_t`. Of a run that ends in undefined behaviour or waits nothing is said.
    pub process-Ends : (key cmd : Text) → Ends base base (process h c user_moved key cmd)
    unfolding process with_reply is_broken
    process-Ends key cmd =
        Ends-keep base (get_connection c key) _ (get_connection-KeepsReplies key) λ con.
          request_checked-Ends h base con.1 cmd false [] (some con.1) _ (λ r. FitsSize r.value)
            (fits con.1 cmd) (silent con.1 cmd)
            λ r fit. release_slot-Ends con (r.address ∷ base) _ (understood-Ends r cmd fit)

    dropped :
        (t : Outcome (Option RedisReply) × Cluster c.State × World E)
        → Owns base t
        → Kept base (after (delete_reply h c user_moved) t)
    unfolding delete_reply with_reply free_reply
    dropped (ok none, s, w) e = tt
    dropped (ok (some r), s, w) e = live-freed r.address base w.log e
    dropped (throw x, s, w) e = e
    dropped (fault, s, w) e = tt
    dropped (blocked, s, w) e = tt

    -- `AltCommand`, up to the end of the last copy of the pointer that it returns: if it comes back,
    -- by a return or a throw, just the replies `base` are alive, as before, with a cluster or with
    -- a null pointer to one. This is for a container and a user callback that neither receive nor
    -- free replies, where releasing a connection and the callback do not throw, and for a hiredis
    -- that stores no reply when the connection has an error and whose texts fit a `size_t`. Of a
    -- run that ends in undefined behaviour, as by freeing a pointer that was never set, or waits
    -- nothing is said.
    pub alt_command-Kept :
        (has_cluster : Bool) (key cmd : Text) (s : Cluster c.State) (w : World E)
        → live w.log ≡ some base
        → Kept base (
            after
              (delete_reply h c user_moved)
              (alt_command h c user_moved has_cluster key cmd s w))
    unfolding alt_command command
    alt_command-Kept true key cmd s w e =
        dropped (process h c user_moved key cmd s w) (process-Ends key cmd s w e)
    alt_command-Kept false key cmd s w e = e
