-- ===== src/Async/Callbacks/Handler.antt =====
-- src/examples/asyncerrorshandling.cpp: an error callback that asks for a retry unless the exception
-- is critical, and what a reply callback does once it has decided.
use cpp_hiredis_cluster.Base.{
  ℕ, true, false, ◌∷◌, [], ◌++◌, some, Bool-cases, inl, inr, ◌≡◌, refl, if◌then◌else◌,
}
use cpp_hiredis_cluster.Text.{Text, codes}
use cpp_hiredis_cluster.Effect.Exception.{
  Exception, disconnected, is_critical, is_cluster_exception, what,
}
use cpp_hiredis_cluster.Effect.Reply.{Reply, RedisReply}
use cpp_hiredis_cluster.Effect.Monad.{
  ok, throw, Conn, submitted, answered, destroyed, Hiredis, World, Action, after,
}
use cpp_hiredis_cluster.Container.Interface.{ConnectionContainer}
use cpp_hiredis_cluster.Process.{ProcessState, failed}
use cpp_hiredis_cluster.Cluster.{Cluster}
use cpp_hiredis_cluster.Async.{
  Decision, finish, retried, AsyncCalls, AsyncState, Step, submit_on, submit_pointer,
  process_hiredis_command, report, destroy, closes, call_error_cb, consult, on_error, caught,
}
use cpp_hiredis_cluster.Async.Callbacks.{report_pointer, retry_failed, retry, settle}

abbrev line_end : Text
line_end = 10 ∷ []

module _ {S E : Type 0} (a : AsyncCalls E) where
  -- The user gets the reply, and the command is deleted.
  abbrev pub finished : Reply → Step S E (Unit {0})
  finished value st w = (
    ok tt,
    record st { command = record st.command { alive = false } },
    record {
      outside = closes a st.command.con (a.user_reply value w.outside);
      log = destroyed ∷ answered ∷ w.log;
    },
  )

module _ {E : Type 0} (print : Text → E → E) (errno : Text) where
  -- `errorHandler`: `print` writes to `cerr`, `errno` is the text that the exception was made with.
  unfoldable pub error_handler : Exception → ProcessState → E → Decision × E
  error_handler x state e =
      if is_critical x
      then (
        finish,
        print (codes "Critical exception in processing async redis callback: " ++ what errno x) e,
      )
      else (
        retried,
        print (codes "Retrying" ++ line_end) (
            print
              (codes "Exception in processing async redis callback: " ++ (what errno x ++ line_end))
              e),
      )

  -- The user's function `fn` is `errorHandler`.
  abbrev pub Handles : AsyncCalls E → ℕ → Type 0
  Handles a fn =
      (x : Exception) (state : ProcessState) (e : E)
      → a.user_error fn x state e ≡ error_handler x state e

  -- What is outside once the handler has written about the exception.
  abbrev pub told : Exception → World E → World E
  told x w = record w { outside = (error_handler x failed w.outside).1 }

  module _ {S : Type 0} (a : AsyncCalls E) where
    -- The request goes to `con` again. If hiredis refuses it, the handler hears of a lost connection
    -- and the command is finished.
    abbrev pub sent_again : Conn → Reply → Step S E (Unit {0})
    sent_again con value st w =
        let (taken, e) = a.submit con st.command.cmd w.outside in
        if taken
        then (ok tt, st, record { outside = e; log = submitted con ∷ w.log })
        else finished a value st (told (disconnected []) (record w { outside = e }))

  module _ {S : Type 0} (a : AsyncCalls E) (fn : ℕ) (handles : Handles a fn) where
    on_error-error_handler :
        (x : Exception) (state : ProcessState) (st : AsyncState S) (w : World E)
        → st.command.user_error_cb ≡ some fn
        → on_error a x state st w ≡ (ok (if is_critical x then finish else retried), st, told x w)
    unfolding on_error consult call_error_cb error_handler
    on_error-error_handler x state st w e =
        rw (e, handles)
          (elim (Bool-cases (is_critical x)) [
            | inl critical ↦ rw critical refl
            | inr mild ↦ rw mild refl
          ])

  module _ (h : Hiredis E) (a : AsyncCalls E) (fn : ℕ) (handles : Handles a fn)
      (c : ConnectionContainer E) (user_moved : ℕ → Action (Cluster c.State) E (Unit {0}))
      (con : Conn) (r : RedisReply) where
    settle-finished :
        (st : AsyncState c.State) (w : World E)
        → st.command.alive ≡ true
        → st.command.has_callback ≡ true
        → ((e : E) → a.subscribed con e ≡ false)
        → settle h a c user_moved con (some r) finish st w ≡ finished a r.value st w
    unfolding settle report_pointer report destroy
    settle-finished st w alive heard plain = rw (heard, plain, alive) refl

    settle-sent_again :
        (st : AsyncState c.State) (w : World E)
        → st.command.user_error_cb ≡ some fn
        → st.command.alive ≡ true
        → st.command.has_callback ≡ true
        → settle h a c user_moved con (some r) retried st w ≡ sent_again a con r.value st w
    unfolding settle retry process_hiredis_command submit_pointer submit_on retry_failed
        call_error_cb report_pointer report destroy
    settle-sent_again st w set alive heard =
        elim (Bool-cases (a.submit con st.command.cmd w.outside).0) [
          | inl taken ↦ rw taken refl
          | inr refused ↦ rw (refused, set, handles, heard, alive) refl
        ]

    -- An exception in the `try` block: the handler decides.
    pub caught-error_handler :
        (x : Exception) (state : ProcessState) (st : AsyncState c.State) (w : World E)
        → is_cluster_exception x ≡ true
        → st.command.user_error_cb ≡ some fn
        → st.command.alive ≡ true
        → st.command.has_callback ≡ true
        → ((e : E) → a.subscribed con e ≡ false)
        → after (settle h a c user_moved con (some r)) (caught a state (throw x, st, w)) ≡ (
            if is_critical x
            then finished a r.value st (told x w)
            else sent_again a con r.value st (told x w))
    unfolding caught
    caught-error_handler x state st w known set alive heard plain =
        elim (Bool-cases (is_critical x)) [
          | inl critical ↦
              rw (known, on_error-error_handler a fn handles x state st w set, critical)
                (settle-finished st (told x w) alive heard plain)
          | inr mild ↦
              rw (known, on_error-error_handler a fn handles x state st w set, mild)
                (settle-sent_again st (told x w) set alive heard)
        ]
