-- ===== src/Command/Startup.antt =====
-- `createCluster`: which connections are closed on the way.
use cpp_hiredis_cluster.Base.{
  ℕ, ◌+◌, Bool, true, [], Option, none, some, if◌then◌else◌, ◌==◌, ◌≡◌, refl, ◌∙◌, arith,
  Bool-cases, inl, inr,
}
use cpp_hiredis_cluster.Int.{ℤ}
use cpp_hiredis_cluster.Text.{Text}
use cpp_hiredis_cluster.Effect.Reply.{RedisReply}
use cpp_hiredis_cluster.Effect.Monad.{
  Outcome, ok, throw, fault, blocked, Conn, Hiredis, World, Action, after, pure, ◌>>◌,
}
use cpp_hiredis_cluster.Effect.Calls.{request, is_usable, log_received}
use cpp_hiredis_cluster.Container.Interface.{default_container}
use cpp_hiredis_cluster.Container.{DefaultContainer}
use cpp_hiredis_cluster.Container.Close.{times_closed}
use cpp_hiredis_cluster.Process.{check_critical}
use cpp_hiredis_cluster.Cluster.{cmd_init}
use cpp_hiredis_cluster.Command.Spares.{
  built-Spares, check_critical-Spares, log_received-Spares, free_pointer-Spares,
}
use cpp_hiredis_cluster.Command.{
  dial, free_context, construct_in, with_reply, free_pointer, create_on, create_pointer,
  create_cluster,
}

module _ (d : Conn) where
  module _ {E : Type 0} (h : Hiredis E) where
    -- A call that started after `n` closes of the connection: one that returns has closed `con` once
    -- more, one that throws has closed nothing.
    abbrev pub Closes : {A S : Type 0} → Conn → ℕ → Outcome A × S × World E → Type 0
    Closes con n (ok a, s, w) = times_closed d w.log ≡ (if d == con then 1 else 0) + n
    Closes con n (throw x, s, w) = times_closed d w.log ≡ n
    Closes con n (fault, s, w) = Unit {0}
    Closes con n (blocked, s, w) = Unit {0}

    after-Closes :
        {A B S : Type 0} (con : Conn) (n : ℕ) (f : A → Action S E B) (t : Outcome A × S × World E)
        → times_closed d t.2.log ≡ n
        → ((a : A) (s : S) (w : World E) → times_closed d w.log ≡ n → Closes con n (f a s w))
        → Closes con n (after f t)
    after-Closes con n f (ok a, s, w) e k = k a s w e
    after-Closes con n f (throw x, s, w) e k = e
    after-Closes con n f (fault, s, w) e k = tt
    after-Closes con n f (blocked, s, w) e k = tt

    create_on-Closes :
        (container : DefaultContainer) (has_connect has_disconnect : Bool) (con : Conn) (n : ℕ)
        (s : Unit {0}) (w : World E)
        → times_closed d w.log ≡ n
        → Closes con n
            (create_on h (default_container h) container has_connect has_disconnect con s w)
    unfolding create_on request free_context
    create_on-Closes container has_connect has_disconnect con n s w e =
        let reply : Option RedisReply = (h.request con cmd_init w.outside).0 in
        let sent : World E = record {
          outside = (h.request con cmd_init w.outside).1;
          log = log_received reply w.log;
        } in
        after-Closes con n _ (check_critical h reply true true [] none s sent)
          (check_critical-Spares d h reply s sent ∙ log_received-Spares d reply w.log ∙ e)
          (λ u s w e.
            after-Closes con n _
              (with_reply reply
                (construct_in h (default_container h) container has_connect has_disconnect) s w)
              (built-Spares d h container has_connect has_disconnect reply s w ∙ e)
              (λ cluster s w e.
                after-Closes con n (λ u. free_context h (default_container h) con >> pure cluster)
                  (free_pointer reply s w) (free_pointer-Spares d h reply s w ∙ e)
                  (λ u s w e. omega (arith, e))))

    -- `createCluster` whose dial gives the connection `con`: if it returns, then it has closed `con`
    -- once and no other connection; if it throws, then it has closed none, not even `con`.
    pub create_cluster-Closes :
        (container : DefaultContainer) (has_connect has_disconnect : Bool) (host : Text) (port : ℤ)
        (w : World E) (con : Conn)
        → (h.dial host port w.outside).0 ≡ some con
        → Closes con (times_closed d w.log) (
            create_cluster h
              (default_container h)
              container
              has_connect
              has_disconnect
              host
              port
              tt
              w)
    unfolding create_cluster dial create_pointer
    create_cluster-Closes container has_connect has_disconnect host port w con dialed =
        rw dialed (elim (Bool-cases (is_usable h (some con) (h.dial host port w.outside).1)) [
          | inl usable ↦
              rw usable (create_on-Closes container has_connect has_disconnect con _ tt _ refl)
          | inr broken ↦ rw broken refl
        ])
