-- ===== src/Command/Lost.antt =====
-- A connection that breaks in the middle of a redirection: hiredis stores no reply then.
use cpp_hiredis_cluster.Base.{ℕ, [], Option, none, some, ◌≡◌, refl, ap, ◌∙◌}
use cpp_hiredis_cluster.Text.{Text, codes}
use cpp_hiredis_cluster.Effect.Reply.{Reply, RedisReply}
use cpp_hiredis_cluster.Effect.Exception.{logic_error}
use cpp_hiredis_cluster.Effect.Monad.{Outcome, throw, fault, Hiredis, World, Action, after}
use cpp_hiredis_cluster.Effect.Calls.{request, throw_with, is_usable, free_reply}
use cpp_hiredis_cluster.Container.Types.{HostConnection}
use cpp_hiredis_cluster.Container.Interface.{ConnectionContainer}
use cpp_hiredis_cluster.Process.{ask, is_broken, check_critical}
use cpp_hiredis_cluster.Cluster.{Cluster}
use cpp_hiredis_cluster.Command.Served.{Redirected, process-dispatch}
use cpp_hiredis_cluster.Command.{ask_on, ask_pointer, follow_ask, dispatch, process}

module _ {E : Type 0} (h : Hiredis E) (c : ConnectionContainer E)
    (user_moved : ℕ → Action (Cluster c.State) E (Unit {0})) where
  abbrev St : Type 0
  St = Cluster c.State

  process-lost_ask :
      (key cmd : Text) (cl : St) (w : World E) (run : Redirected h c user_moved key cmd ask cl w)
      → (h.request run.new (codes "ASKING") run.w₅.outside).0 ≡ none
      → (process h c user_moved key cmd cl w).0 ≡ fault
  unfolding dispatch follow_ask ask_pointer ask_on is_usable request check_critical is_broken
      free_reply
  process-lost_ask key cmd cl w run lost =
      ap (λ t. t.0) (process-dispatch h c user_moved key cmd ask cl w run.first)
      ∙ ap
          (λ t. (after (λ (hcon : HostConnection). ask_pointer h c user_moved hcon cmd hcon.1) t).0)
          run.connected
      ∙ rw (run.usable, lost) refl

  process-refused_ask :
      (key cmd : Text) (cl : St) (w : World E) (run : Redirected h c user_moved key cmd ask cl w)
      (other : ℕ) (error : Text)
      → (h.request run.new (codes "ASKING") run.w₅.outside).0
        ≡ some (record { address = other; value = Reply.error error })
      → (process h c user_moved key cmd cl w).0 ≡ throw (logic_error [])
  unfolding dispatch follow_ask ask_pointer ask_on is_usable request check_critical is_broken
      free_reply throw_with
  process-refused_ask key cmd cl w run other error refused =
      ap (λ t. t.0) (process-dispatch h c user_moved key cmd ask cl w run.first)
      ∙ ap
          (λ t. (after (λ (hcon : HostConnection). ask_pointer h c user_moved hcon cmd hcon.1) t).0)
          run.connected
      ∙ rw (run.usable, refused) refl

  -- What hiredis gives for `ASKING`: nothing, or an error at an address.
  abbrev pub failed_answer : Option (ℕ × Text) → Option RedisReply
  failed_answer none = none
  failed_answer (some (address, error)) =
      some (record { address = address; value = Reply.error error })

  abbrev pub failed_end : Option (ℕ × Text) → Outcome (Option RedisReply)
  failed_end none = fault
  failed_end (some refused) = throw (logic_error [])

  -- A command that is redirected by `ASK` to a host with a usable connection: if this connection
  -- breaks before `ASKING` is answered, then the null pointer that takes the reply's place is read,
  -- which is undefined behaviour; if `ASKING` is answered with an error, then the command throws
  -- `LogicError` with an empty text, whatever the error says.
  pub process-failed_ask :
      (key cmd : Text) (cl : St) (w : World E) (run : Redirected h c user_moved key cmd ask cl w)
      (failure : Option (ℕ × Text))
      → (h.request run.new (codes "ASKING") run.w₅.outside).0 ≡ failed_answer failure
      → (process h c user_moved key cmd cl w).0 ≡ failed_end failure
  process-failed_ask key cmd cl w run none lost = process-lost_ask key cmd cl w run lost
  process-failed_ask key cmd cl w run (some (address, error)) refused =
      process-refused_ask key cmd cl w run address error refused
