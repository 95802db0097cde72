-- ===== src/Async/Connect/Leads.antt =====
-- What a call of `createCluster` needs and leaves outside.
use cpp_hiredis_cluster.Base.{false, Option, none, some, ◌≡◌}
use cpp_hiredis_cluster.Effect.Reply.{RedisReply}
use cpp_hiredis_cluster.Effect.Exception.{Exception}
use cpp_hiredis_cluster.Effect.Monad.{Outcome, ok, throw, fault, blocked, World, Action, after}
use cpp_hiredis_cluster.Effect.Calls.{throw_with, free_reply}
use cpp_hiredis_cluster.Async.Connect.{Linked}

module _ {E : Type 0} where
  -- No callback has read a context that is not there.
  abbrev pub Unharmed : Linked E → Type 0
  Unharmed l = l.misused ≡ false

  -- `Q` holds outside behind a return, and nothing is harmed behind any other end.
  abbrev pub Ends : {A S : Type 0} → (Linked E → Type 0) → Outcome A × S × World (Linked E) → Type 0
  Ends Q (ok a, s, w) = Q w.outside
  Ends Q (throw x, s, w) = Unharmed w.outside
  Ends Q (fault, s, w) = Unharmed w.outside
  Ends Q (blocked, s, w) = Unharmed w.outside

  module _ {S : Type 0} where
    abbrev pub Leads :
        {A : Type 0} → (Linked E → Type 0) → Action S (Linked E) A → (Linked E → Type 0) → Type 0
    Leads P m Q = (s : S) (w : World (Linked E)) → P w.outside → Ends Q (m s w)

    pub after-Ends :
        {A B : Type 0} (Q R : Linked E → Type 0) (f : A → Action S (Linked E) B)
        (t : Outcome A × S × World (Linked E))
        → Ends Q t
        → ((x : A) → Leads Q (f x) R)
        → Ends R (after f t)
    after-Ends Q R f (ok x, s, w) e k = k x s w e
    after-Ends Q R f (throw x, s, w) e k = e
    after-Ends Q R f (fault, s, w) e k = e
    after-Ends Q R f (blocked, s, w) e k = e

    pub bind-Leads :
        {A B : Type 0} (P Q R : Linked E → Type 0) (m : Action S (Linked E) A)
        (f : A → Action S (Linked E) B)
        → Leads P m Q
        → ((x : A) → Leads Q (f x) R)
        → Leads P (λ s w. after f (m s w)) R
    bind-Leads P Q R m f d k s w e = after-Ends Q R f (m s w) (d s w e) k

    pub throw_with-Leads :
        (A : Type 0) (Q : Linked E → Type 0) (r : Option RedisReply) (x : Exception)
        → Leads Unharmed (throw_with {A = A} r x) Q
    unfolding throw_with free_reply
    throw_with-Leads A Q none x s w e = e
    throw_with-Leads A Q (some r) x s w e = e
