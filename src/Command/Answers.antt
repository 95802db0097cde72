-- ===== src/Command/Answers.antt =====
-- A synchronous command comes back with a reply or an exception.
use cpp_hiredis_cluster.Base.{ℕ, Bool, true, false, [], Option, none, some, ◌≡◌, length}
use cpp_hiredis_cluster.Text.{Text, codes}
use cpp_hiredis_cluster.SlotHash.{slot_by_key}
use cpp_hiredis_cluster.Effect.Reply.{RedisReply}
use cpp_hiredis_cluster.Effect.Monad.{Conn, Hiredis, Action, after, pure}
use cpp_hiredis_cluster.Effect.Calls.{request, throw_with, is_usable, free_reply}
use cpp_hiredis_cluster.Effect.Defined.{
  ComesBack-state, IsDefined, Anything, bind-IsDefined, choose-IsDefined,
}
use cpp_hiredis_cluster.Container.Types.{HostConnection}
use cpp_hiredis_cluster.Container.Live.{IsLive}
use cpp_hiredis_cluster.Container.Interface.{ConnectionContainer}
use cpp_hiredis_cluster.Process.{
  Processed, ProcessState, moved, ask, ready, clusterdown, failed, process_result, check_critical,
}
use cpp_hiredis_cluster.Process.Redirect.{FitsSize, process_result-total}
use cpp_hiredis_cluster.Process.Critical.{check_critical-IsDefined}
use cpp_hiredis_cluster.Cluster.{
  Cluster, on_container, serve_slot, get_connection, create_new_connection, release_slot,
  release_host, set_moved, call_user,
}
use cpp_hiredis_cluster.Command.{
  ask_on, ask_pointer, follow_ask, moved_on, moved_pointer, follow_moved, dispatch, with_reply,
  free_pointer, process,
}

-- A pointer that was set.
abbrev pub HoldsReply : Option RedisReply → Type 0
HoldsReply none = ⊥
HoldsReply (some r) = Unit {0}

module _ {E : Type 0} (h : Hiredis E) (c : ConnectionContainer E)
    (user_moved : ℕ → Action (Cluster c.State) E (Unit {0})) (live : IsLive c)
    (user_live : (fn : ℕ) → IsDefined Anything (user_moved fn))
    (answered : (con : Conn) (cmd : Text) (e : E)
      → (r : RedisReply) × ((h.request con cmd e).0 ≡ some r) × FitsSize r.value) where
  abbrev St : Type 0
  St = Cluster c.State

  placed :
      {A : Type 0} (m : Action c.State E A)
      → IsDefined Anything m
      → IsDefined Anything (on_container c m)
  unfolding on_container
  placed m d cl w =
      ComesBack-state Anything (λ (s : c.State). record cl { container = s }) (m cl.container w)
        (d cl.container w)

  -- The reply to a request, if the code behind comes back with every reply.
  request-IsDefined :
      {A : Type 0} (Q : A → Type 0) (con : Conn) (cmd : Text)
      (f : Option RedisReply → Action St E A)
      → ((r : RedisReply) → FitsSize r.value → IsDefined Q (f (some r)))
      → IsDefined Q (λ s w. after f (request h con cmd s w))
  unfolding request
  request-IsDefined Q con cmd f k s w =
      let (r, got, fits) = answered con cmd w.outside in rw got (k r fits s _)

  checked-IsDefined :
      {A : Type 0} (Q : A → Type 0) (r : RedisReply) (critical : Bool) (con : Option Conn)
      (k : Action St E A)
      → IsDefined Q k
      → IsDefined Q (λ s w. after (λ _. k) (check_critical h (some r) critical true [] con s w))
  checked-IsDefined Q r critical con k d =
      bind-IsDefined Anything Q (λ _. k) (check_critical h (some r) critical true [] con)
        (check_critical-IsDefined h r critical true [] con) (λ u p. d)

  release_host-IsDefined : (con : HostConnection) → IsDefined Anything (release_host c con)
  unfolding release_host
  release_host-IsDefined con = placed (c.release_host con) (live.release_host_live con)

  released :
      (hcon : HostConnection) (r : RedisReply)
      → IsDefined {S = St} {E = E} HoldsReply
          (λ s w. after (λ _. pure (some r)) (release_host c hcon s w))
  released hcon r =
      bind-IsDefined Anything HoldsReply (λ _. pure (some r)) (release_host c hcon)
        (release_host-IsDefined hcon) (λ u p s w. tt)

  ask_on-IsDefined :
      (con : Conn) (cmd : Text) (hcon : HostConnection)
      → IsDefined HoldsReply (ask_on h c user_moved con cmd hcon)
  unfolding ask_on free_pointer free_reply
  ask_on-IsDefined con cmd hcon = request-IsDefined HoldsReply con (codes "ASKING") _ λ asked fits.
      checked-IsDefined HoldsReply asked true none _ λ s w.
        request-IsDefined HoldsReply con cmd _
          (λ reply fits. checked-IsDefined HoldsReply reply false none _ (released hcon reply)) s _

  ask_pointer-IsDefined :
      (hcon : HostConnection) (cmd : Text) (con : Option Conn)
      → IsDefined HoldsReply (ask_pointer h c user_moved hcon cmd con)
  unfolding ask_pointer
  ask_pointer-IsDefined hcon cmd none s w = tt
  ask_pointer-IsDefined hcon cmd (some con) s w =
      choose-IsDefined HoldsReply (is_usable h (some con) w.outside) _ _
        (ask_on-IsDefined con cmd hcon)
        (bind-IsDefined Anything HoldsReply _ (release_host c hcon) (release_host-IsDefined hcon)
          (λ u p s w. tt))
        s w

  call_user-IsDefined : (fn : Option ℕ) → IsDefined Anything (call_user c user_moved fn)
  unfolding call_user
  call_user-IsDefined none s w = tt
  call_user-IsDefined (some fn) s w = user_live fn s w

  set_moved-IsDefined : IsDefined Anything (set_moved c user_moved)
  unfolding set_moved
  set_moved-IsDefined cl w = call_user-IsDefined cl.user_moved_fn (record cl { moved = true }) w

  moved_on-IsDefined :
      (con : Conn) (cmd : Text) (hcon : HostConnection)
      → IsDefined HoldsReply (moved_on h c user_moved con cmd hcon)
  unfolding moved_on
  moved_on-IsDefined con cmd hcon = request-IsDefined HoldsReply con cmd _ λ reply fits.
      bind-IsDefined Anything HoldsReply _ (set_moved c user_moved) set_moved-IsDefined
        (λ u p. released hcon reply)

  moved_pointer-IsDefined :
      (hcon : HostConnection) (cmd : Text) (con : Option Conn)
      → IsDefined HoldsReply (moved_pointer h c user_moved hcon cmd con)
  unfolding moved_pointer
  moved_pointer-IsDefined hcon cmd none s w = tt
  moved_pointer-IsDefined hcon cmd (some con) s w =
      choose-IsDefined HoldsReply (is_usable h (some con) w.outside) _ _
        (moved_on-IsDefined con cmd hcon) (λ s w. tt) s w

  connected-IsDefined :
      (p : Processed) (f : HostConnection → Action St E (Option RedisReply))
      → ((hcon : HostConnection) → IsDefined HoldsReply (f hcon))
      → IsDefined HoldsReply (λ s w. after f (create_new_connection c p.host p.port s w))
  unfolding create_new_connection
  connected-IsDefined p f k =
      bind-IsDefined Anything HoldsReply f (create_new_connection c p.host p.port)
        (placed (c.insert_host p.host p.port) (live.insert_host_live p.host p.port))
        (λ hcon _. k hcon)

  dispatch-IsDefined :
      (state : ProcessState) (r : RedisReply) (cmd : Text) (p : Processed)
      → IsDefined HoldsReply (dispatch h c user_moved state r cmd p)
  unfolding dispatch follow_ask follow_moved throw_with free_reply
  dispatch-IsDefined ask r cmd p s w =
      connected-IsDefined p _ (λ hcon. ask_pointer-IsDefined hcon cmd hcon.1) s _
  dispatch-IsDefined moved r cmd p s w =
      connected-IsDefined p _ (λ hcon. moved_pointer-IsDefined hcon cmd hcon.1) s _
  dispatch-IsDefined ready r cmd p s w = tt
  dispatch-IsDefined clusterdown r cmd p s w = tt
  dispatch-IsDefined failed r cmd p s w = tt

  understood-IsDefined :
      (r : RedisReply) (cmd : Text)
      → FitsSize r.value
      → IsDefined {S = St} {E = E} HoldsReply (λ s w.
        after (λ p. dispatch h c user_moved p.state r cmd p) (process_result r.value, s, w))
  understood-IsDefined r cmd fits s w =
      let (p, there) = process_result-total r.value fits in
      rw there (dispatch-IsDefined p.state r cmd p s w)

  serve_slot-IsDefined :
      (o : Option ℕ) (slot : ℕ) → o ≡ some slot → IsDefined Anything (serve_slot c o)
  unfolding serve_slot
  serve_slot-IsDefined none slot e = cc
  serve_slot-IsDefined (some n) slot e = placed (c.get_connection n) (live.get_connection_live n)

  -- A command for a key that has a slot comes back: it returns a reply, never an unset
  -- pointer, or throws. This is for a container and a user callback whose calls return or
  -- throw, and while hiredis answers every request with a reply whose text fits a `size_t`.
  pub process-IsDefined :
      (key cmd : Text) (slot : ℕ)
      → slot_by_key key (length key) ≡ some slot
      → IsDefined HoldsReply (process h c user_moved key cmd)
  unfolding process with_reply get_connection release_slot
  process-IsDefined key cmd slot hashed =
      bind-IsDefined Anything HoldsReply _ (get_connection c key)
        (λ cl w.
          choose-IsDefined Anything cl.ready_to_use _ _
            (serve_slot-IsDefined (slot_by_key key (length key)) slot hashed) (λ s w. tt) cl w)
        λ con _. request-IsDefined HoldsReply con.1 cmd _ λ r fits.
          checked-IsDefined HoldsReply r false (some con.1) _ (
            bind-IsDefined Anything HoldsReply _ (release_slot c con)
              (placed (c.release_slot con) (live.release_slot_live con))
              (λ u p. understood-IsDefined r cmd fits))
