-- ===== src/Command/Followed.antt =====
-- Commands that are answered, by the slot's node or by the node that a redirection names.
use cpp_hiredis_cluster.Base.{Bool, ℕ, true, false, [], ◌∷◌, Option, none, some, ◌≡◌, refl, ap, ◌∙◌}
use cpp_hiredis_cluster.Text.{Text, codes}
use cpp_hiredis_cluster.Effect.Reply.{Reply, RedisReply}
use cpp_hiredis_cluster.Effect.Monad.{ok, fault, received, freed, Hiredis, World, Action, after}
use cpp_hiredis_cluster.Effect.Calls.{log_received, request, is_usable, free_reply}
use cpp_hiredis_cluster.Container.Types.{HostConnection}
use cpp_hiredis_cluster.Container.Interface.{ConnectionContainer}
use cpp_hiredis_cluster.Process.{moved, ask, is_broken, check_critical, check_reply}
use cpp_hiredis_cluster.Cluster.{Cluster, release_host, set_moved}
use cpp_hiredis_cluster.Process.Critical.{says_down}
use cpp_hiredis_cluster.Command.Served.{Redirected, check_served, process-dispatch}
use cpp_hiredis_cluster.Command.{
  ask_on, ask_pointer, follow_ask, moved_on, moved_pointer, follow_moved, dispatch, free_pointer,
  with_reply, process, command, alt_command, delete_reply,
}

-- A reply of type `REDIS_REPLY_ERROR`.
abbrev pub is_error : Reply → Bool
is_error (Reply.error text) = true
is_error (Reply.string text) = false
is_error (Reply.array elements) = false
is_error (Reply.integer n) = false
is_error Reply.nil = false
is_error (Reply.status text) = false

module _ {E : Type 0} (h : Hiredis E) (c : ConnectionContainer E)
    (user_moved : ℕ → Action (Cluster c.State) E (Unit {0})) where
  abbrev St : Type 0
  St = Cluster c.State

  -- If the slot's connection answers with `MOVED` and a usable connection to the host that it names
  -- is there, then the first answer is freed, the command is sent again on this connection, the
  -- cluster is told that it moved, the connection is released, and whatever the second request gave
  -- is returned: its reply, or a pointer that was never set if it was not answered. This is for a
  -- user callback and a release that return.
  pub process-moved :
      (key cmd : Text) (cl cl₄ cl₅ : St) (w w₇ w₈ : World E)
      (run : Redirected h c user_moved key cmd moved cl w) (reply : Option RedisReply)
      → (h.request run.new cmd run.w₅.outside).0 ≡ reply
      → set_moved c user_moved run.cl₃ (record {
        outside = (h.request run.new cmd run.w₅.outside).1;
        log = log_received reply run.w₅.log;
      })
        ≡ (ok tt, cl₄, w₇)
      → release_host c (run.name, some run.new) cl₄ w₇ ≡ (ok tt, cl₅, w₈)
      → process h c user_moved key cmd cl w ≡ (ok reply, cl₅, w₈)
  unfolding dispatch follow_moved moved_pointer moved_on is_usable request free_reply
  process-moved key cmd cl cl₄ cl₅ w w₇ w₈ run reply answered told released =
      process-dispatch h c user_moved key cmd moved cl w run.first
      ∙ ap (after (λ (hcon : HostConnection). moved_pointer h c user_moved hcon cmd hcon.1))
          run.connected
      ∙ rw (run.usable, answered)
          (ap
              (after (λ done s w.
                after (λ _ s w. (ok reply, s, w)) (release_host c (run.name, some run.new) s w)))
              told
            ∙ ap (after (λ _ s w. (ok reply, s, w))) released)

  -- If the second request of a command that follows `MOVED` is not answered, then `AltCommand` gives
  -- its caller a pointer that was never set, and `deleteReply` of it is undefined behaviour. This is
  -- for a usable connection to the host that the answer names, and for a user callback and a release
  -- that return.
  pub delete_reply-alt_command :
      (key cmd : Text) (cl cl₄ cl₅ : St) (w w₇ w₈ : World E)
      (run : Redirected h c user_moved key cmd moved cl w)
      → (h.request run.new cmd run.w₅.outside).0 ≡ none
      → set_moved c user_moved run.cl₃
          (record { outside = (h.request run.new cmd run.w₅.outside).1; log = run.w₅.log })
        ≡ (ok tt, cl₄, w₇)
      → release_host c (run.name, some run.new) cl₄ w₇ ≡ (ok tt, cl₅, w₈)
      → (after (delete_reply h c user_moved) (alt_command h c user_moved true key cmd cl w)).0
        ≡ fault
  unfolding alt_command command delete_reply with_reply
  delete_reply-alt_command key cmd cl cl₄ cl₅ w w₇ w₈ run lost told released =
      ap (λ t. (after (delete_reply h c user_moved) t).0)
        (process-moved key cmd cl cl₄ cl₅ w w₇ w₈ run none lost told released)

  check_fine :
      (r : RedisReply) (v : Reply) (s : St) (w : World E)
      → is_error v ≡ false
      → check_reply h r v true true [] s w ≡ (ok tt, s, w)
  unfolding check_reply
  check_fine r (Reply.error text) s w fine = cc
  check_fine r (Reply.string text) s w fine = refl
  check_fine r (Reply.array elements) s w fine = refl
  check_fine r (Reply.integer n) s w fine = refl
  check_fine r Reply.nil s w fine = refl
  check_fine r (Reply.status text) s w fine = refl

  check_asked :
      (r : RedisReply) (s : St) (w : World E)
      → is_error r.value ≡ false
      → check_critical h (some r) true true [] none s w ≡ (ok tt, s, w)
  unfolding check_critical is_broken
  check_asked r s w fine = check_fine r r.value s w fine

  check_answered :
      (r : RedisReply) (s : St) (w : World E)
      → says_down r.value ≡ false
      → check_critical h (some r) false true [] none s w ≡ (ok tt, s, w)
  unfolding check_critical is_broken
  check_answered r s w up = check_served h c user_moved r r.value s w up

  -- If the slot's connection answers with `ASK` and a usable connection to the host that it names is
  -- there, then the first answer is freed, `ASKING` and then the command are sent on this
  -- connection, the reply to `ASKING` is freed, the connection is released, and the reply to the
  -- command is returned. This is for a reply to `ASKING` that is no error, a reply to the command
  -- that does not say `CLUSTERDOWN`, and a release that returns.
  pub process-asked :
      (key cmd : Text) (cl cl₄ : St) (w w₈ : World E)
      (run : Redirected h c user_moved key cmd ask cl w) (asked reply : RedisReply)
      → (h.request run.new (codes "ASKING") run.w₅.outside).0 ≡ some asked
      → is_error asked.value ≡ false
      → (h.request run.new cmd (h.request run.new (codes "ASKING") run.w₅.outside).1).0 ≡ some reply
      → says_down reply.value ≡ false
      → release_host c
          (run.name, some run.new)
          run.cl₃
          (record {
            outside =
                (h.request run.new cmd (h.request run.new (codes "ASKING") run.w₅.outside).1).1;
            log =
                received reply.address
                ∷ (freed asked.address ∷ (received asked.address ∷ run.w₅.log));
          })
        ≡ (ok tt, cl₄, w₈)
      → process h c user_moved key cmd cl w ≡ (ok (some reply), cl₄, w₈)
  unfolding dispatch follow_ask ask_pointer ask_on is_usable request free_reply free_pointer
  process-asked key cmd cl cl₄ w w₈ run asked reply asking fine answered up released =
      process-dispatch h c user_moved key cmd ask cl w run.first
      ∙ ap (after (λ (hcon : HostConnection). ask_pointer h c user_moved hcon cmd hcon.1))
          run.connected
      ∙ rw (run.usable, asking)
          (ap (after _) (check_asked asked run.cl₃ _ fine)
            ∙ rw answered (
                ap (after _) (check_answered reply run.cl₃ _ up)
                ∙ ap (after (λ _ s w. (ok (some reply), s, w))) released))
