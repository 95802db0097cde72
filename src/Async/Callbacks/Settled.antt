-- ===== src/Async/Callbacks/Settled.antt =====
-- What a reply callback leaves behind: a command with one new request, or a command that is done.
use cpp_hiredis_cluster.Base.{
  ℕ, Bool, true, false, List, [], ◌∷◌, Option, none, some, ◌≡◌, refl, ap, ◌∙◌, ◌⊎◌, inl, inr,
  if◌then◌else◌,
}
use cpp_hiredis_cluster.Effect.Exception.{disconnected}
use cpp_hiredis_cluster.Effect.Reply.{RedisReply}
use cpp_hiredis_cluster.Effect.Monad.{
  ok, fault, Conn, Event, destroyed, submitted, Hiredis, World, Action, after,
}
use cpp_hiredis_cluster.Container.Interface.{ConnectionContainer}
use cpp_hiredis_cluster.Process.{failed}
use cpp_hiredis_cluster.Process.Redirect.{FitsSize}
use cpp_hiredis_cluster.Cluster.{Cluster}
use cpp_hiredis_cluster.Async.{
  Decision, redirect, finish, asking, retried, AsyncCalls, AsyncState, submit_on, submit_pointer,
  process_hiredis_command, report, destroy, call_error_cb,
}
use cpp_hiredis_cluster.Async.Steady.{
  trace, reported, Connects, IsQuiet, Steady, Ran, Ran-after, Submitted, Chosen, submit_on-Ran,
  report-Ran,
}
use cpp_hiredis_cluster.Async.Callbacks.{
  report_pointer, retry_failed, retry, settle, process_command_reply, run_redis_callback,
}
use cpp_hiredis_cluster.Async.Callbacks.Decided.{judge-classify-Ran, guarded-read_asking-Ran}

-- Over the trace `l` and the user's functions `b`: the command waits for one request that is new;
-- or the user has the reply, and the command stays for a subscription or is deleted.
abbrev pub Settled :
    {S E : Type 0}
    → AsyncCalls E
    → Bool
    → List Event
    → Conn
    → Unit {0}
    → AsyncState S
    → World E
    → Type 0
Settled a b l con done st w =
    ((k : Conn) × (trace w.log ≡ submitted k ∷ l) × (st.command.alive ≡ true))
    ⊎ ((trace w.log ≡ reported b l)
        × (st.command.alive ≡ true)
        × (a.subscribed con w.outside ≡ true))
    ⊎ ((trace w.log ≡ destroyed ∷ reported b l) × (st.command.alive ≡ false))

module _ {E : Type 0} (h : Hiredis E) (a : AsyncCalls E) (c : ConnectionContainer E)
    (user_moved : ℕ → Action (Cluster c.State) E (Unit {0})) (connects : Connects c)
    (user_quiet : IsQuiet user_moved) (b : Bool) (u : Option ℕ) (l : List Event) where
  deleting-Ran :
      (con : Conn) (e : E) (alive : Bool) (st : AsyncState c.State) (w : World E)
      → alive ≡ true
      → Steady b u (reported b l) st w
      → Ran b u l (Settled a b l con) (
          if alive
          then (
            ok tt,
            record st { command = record st.command { alive = false } },
            record { outside = e; log = destroyed ∷ w.log },
          )
          else (fault, st, w))
  deleting-Ran con e true st w t s = inr (inr (ap (λ k. destroyed ∷ k) s.0, refl))
  deleting-Ran con e false st w t s = cc

  destroy-Ran :
      (con : Conn) (st : AsyncState c.State) (w : World E)
      → Steady b u (reported b l) st w
      → Ran b u l (Settled a b l con) (destroy a st w)
  unfolding destroy
  destroy-Ran con st w s = deleting-Ran con _ st.command.alive st w s.1 s

  finished-Ran :
      (con : Conn) (r : RedisReply) (f : Unit {0} → Action (AsyncState c.State) E (Unit {0}))
      (st : AsyncState c.State) (w : World E)
      → Steady b u l st w
      → ((st : AsyncState c.State) (w : World E)
          → Steady b u (reported b l) st w
          → Ran b u l (Settled a b l con) (f tt st w))
      → Ran b u l (Settled a b l con) (after f (report_pointer h a c user_moved (some r) st w))
  unfolding report_pointer
  finished-Ran con r f st w s k =
      Ran-after b u l (λ _. Steady b u (reported b l)) (Settled a b l con) f (report a r.value st w)
        (report-Ran b u a l r.value st w s) (λ done. k)

  retry_called-Ran :
      (con : Conn) (r : RedisReply) (fn : ℕ) (cb : Option ℕ) (st : AsyncState c.State) (w : World E)
      → cb ≡ some fn
      → Steady b u l st w
      → Ran b u l (Settled a b l con) (
          after
            (λ answer st w. after (λ _. destroy a) (report_pointer h a c user_moved (some r) st w))
            (call_error_cb a cb (disconnected []) failed st w))
  unfolding call_error_cb
  retry_called-Ran con r fn none st w e s = cc
  retry_called-Ran con r fn (some g) st w e s =
      finished-Ran con r (λ _. destroy a) st _ s (destroy-Ran con)

  retry_sent-Ran :
      (con : Conn) (r : RedisReply) (fn : ℕ)
      → u ≡ some fn
      → (taken : Bool) (st : AsyncState c.State) (w : World E) → Submitted b u l taken st w
      → Ran b u l (Settled a b l con) (
          (if taken then (λ st w. (ok tt, st, w)) else retry_failed h a c user_moved (some r)) st w)
  unfolding retry_failed
  retry_sent-Ran con r fn e true st w s = inl (s.0, s.1.0, s.1.1)
  retry_sent-Ran con r fn e false st w s =
      retry_called-Ran con r fn st.command.user_error_cb st w (s.3 ∙ e) s

  subscribed-Ran :
      (con : Conn) (kept : Bool) (st : AsyncState c.State) (w : World E)
      → a.subscribed con w.outside ≡ kept
      → Steady b u (reported b l) st w
      → Ran b u l (Settled a b l con) ((if kept then (λ st w. (ok tt, st, w)) else destroy a) st w)
  subscribed-Ran con true st w e s = inr (inl (s.0, s.1, e))
  subscribed-Ran con false st w e s = destroy-Ran con st w s

  settle-Ran :
      (con : Conn) (r : RedisReply) (d : Decision) (st : AsyncState c.State) (w : World E)
      → Chosen b u l d st w
      → Ran b u l (Settled a b l con) (settle h a c user_moved con (some r) d st w)
  unfolding settle retry process_hiredis_command submit_pointer
  settle-Ran con r redirect st w s = inl (s.0, s.1.0, s.1.1)
  settle-Ran con r asking st w s = inl (s.0, s.1.0, s.1.1)
  settle-Ran con r finish st w s =
      finished-Ran con r _ st w s (λ st w q. subscribed-Ran con _ st w refl q)
  settle-Ran con r retried st w s =
      Ran-after b u l (Submitted b u l) (Settled a b l con) _ (submit_on a con st.command.cmd st w)
        (submit_on-Ran b u a l con st.command.cmd st w s.0) (retry_sent-Ran con r s.1 s.2)

module _ {E : Type 0} (h : Hiredis E) (a : AsyncCalls E) (c : ConnectionContainer E)
    (user_moved : ℕ → Action (Cluster c.State) E (Unit {0})) (connects : Connects c)
    (user_quiet : IsQuiet user_moved) where
  -- The callback for a reply, not a null pointer to one, to a living command returns or throws. This
  -- is for a reply whose text fits a `size_t`, for a container whose `createNewConnection` returns a
  -- connection that is not null or throws, and does nothing to command objects, and for a callback
  -- of `moved()` that returns or throws and does nothing to command objects. If it returns, then either one new request was accepted
  -- for the command and nothing else happened to it; or the user got the reply once, with no new
  -- request, and the command is deleted once or is alive on a subscribed connection. If it throws,
  -- the command is alive, unanswered and has no new request.
  pub process_command_reply-Settled :
      (con : Conn) (r : RedisReply) (st : AsyncState c.State) (w : World E)
      → st.command.alive ≡ true
      → FitsSize r.value
      → Ran st.command.has_callback st.command.user_error_cb
          (trace w.log)
          (Settled a st.command.has_callback (trace w.log) con)
          (process_command_reply h a c user_moved con (some r) st w)
  unfolding process_command_reply
  process_command_reply-Settled con r st w alive fits =
      let b = st.command.has_callback in
      let u = st.command.user_error_cb in
      let l = trace w.log in
      Ran-after b u l (Chosen b u l) (Settled a b l con) _ _
        (judge-classify-Ran h a c user_moved connects user_quiet b u l r st w fits
          (refl, alive, refl, refl))
        (settle-Ran h a c user_moved connects user_quiet b u l con r)

  -- The callback for the reply to `ASKING`, not a null pointer to one, for a living command that has
  -- its own connection, returns or throws, and leaves the command as the other callback does. This
  -- is for a container and a callback of `moved()` as there.
  pub run_redis_callback-Settled :
      (con : Conn) (r : RedisReply) (n : Conn) (st : AsyncState c.State) (w : World E)
      → st.command.alive ≡ true
      → st.command.con ≡ some n
      → Ran st.command.has_callback st.command.user_error_cb
          (trace w.log)
          (Settled a st.command.has_callback (trace w.log) con)
          (run_redis_callback h a c user_moved con (some r) st w)
  unfolding run_redis_callback
  run_redis_callback-Settled con r n st w alive linked =
      let b = st.command.has_callback in
      let u = st.command.user_error_cb in
      let l = trace w.log in
      Ran-after b u l (Chosen b u l) (Settled a b l con) _ _
        (guarded-read_asking-Ran h a c user_moved connects user_quiet b u l r n st w linked
          (refl, alive, refl, refl))
        (settle-Ran h a c user_moved connects user_quiet b u l con r)
