-- ===== src/Effect/Monad.antt =====
-- Results, the log of resource calls, and computations that pass a state and the outside world on.
use cpp_hiredis_cluster.Base.{◌≡◌, refl, ap, ℕ, Bool, List, ◌∷◌, Option}
use cpp_hiredis_cluster.Int.{ℤ}
use cpp_hiredis_cluster.Text.{Text}
use cpp_hiredis_cluster.Effect.Exception.{Exception}
use cpp_hiredis_cluster.Effect.Reply.{RedisReply}

-- `fault` is undefined behaviour, such as a read through a null or an indeterminate pointer;
-- `blocked` is a wait that only another thread can end.
pub data Outcome {ℓ} (A : Type ℓ) : Type ℓ where
  ok : A → Outcome A
  throw : Exception → Outcome A
  fault blocked : Outcome A

or_else {ℓ} : {A : Type ℓ} → A → Outcome A → A
or_else d (ok a) = a
or_else d r = d

pub ok-injective {ℓ} : {A : Type ℓ} {a b : A} → ok a ≡ ok b → a ≡ b
unfolding or_else
ok-injective {a} e = ap (or_else a) e

-- A pointer to a connection context.
abbrev pub Conn : Type 0
Conn = ℕ

-- What happened to resources, newest first.
pub data Event : Type 0 where
  opened closed : Conn → Event
  received freed : ℕ → Event
  -- An asynchronous command object is made and deleted; a request of it is accepted by hiredis;
  -- the user's callback gets a reply.
  created destroyed : Event
  submitted : Conn → Event
  answered : Event

-- The calls of hiredis and of the user's functions, over a state `E` of everything outside.
pub record Hiredis (E : Type 0) : Type 0 where
  -- `connect_(host, port, data)`: a null pointer is `none`.
  pub connect : Text → ℤ → E → Outcome (Option Conn) × E
  -- `con->err != 0`, `con->errstr`
  pub has_error : Conn → E → Bool
  pub error_text : Conn → E → Text
  -- `disconnect_(con)`
  pub close : Conn → E → E
  -- `redisConnectWithTimeout` and `redisFree`
  pub dial : Text → ℤ → E → Option Conn × E
  pub free_context : Conn → E → E
  -- A formatted command sent and its reply read: `none` if no reply is stored.
  pub request : Conn → Text → E → Option RedisReply × E

pub record World (E : Type 0) : Type 0 where
  pub outside : E
  pub log : List Event

abbrev pub Action : Type 0 → Type 0 → Type 0 → Type 0
Action S E A = S → World E → Outcome A × S × World E

module _ {S E : Type 0} where
  abbrev pub pure : {A : Type 0} → A → Action S E A
  pure a s w = (ok a, s, w)

  abbrev pub raise : {A : Type 0} → Exception → Action S E A
  raise e s w = (throw e, s, w)

  -- The continuation runs only after a normal return.
  abbrev pub after :
      {A B : Type 0} → (A → Action S E B) → Outcome A × S × World E → Outcome B × S × World E
  after f (ok a, s, w) = f a s w
  after f (throw e, s, w) = (throw e, s, w)
  after f (fault, s, w) = (fault, s, w)
  after f (blocked, s, w) = (blocked, s, w)

  infixl 5 ◌>>=◌ ◌>>◌
  abbrev pub ◌>>=◌ : {A B : Type 0} → Action S E A → (A → Action S E B) → Action S E B
  ◌>>=◌ m f s w = after f (m s w)

  abbrev pub ◌>>◌ : {B : Type 0} → Action S E (Unit {0}) → Action S E B → Action S E B
  m >> k = m >>= λ _. k

  abbrev pub lift : {A : Type 0} → Outcome A → Action S E A
  lift r s w = (r, s, w)

  abbrev pub note : Event → Action S E (Unit {0})
  note e s w = (ok tt, s, record w { log = e ∷ w.log })

  abbrev pub gets : {A : Type 0} → (S → A) → Action S E A
  gets f s w = (ok (f s), s, w)

  abbrev pub put : S → Action S E (Unit {0})
  put s' s w = (ok tt, s', w)

  abbrev pub reads : {A : Type 0} → (E → A) → Action S E A
  reads f s w = (ok (f w.outside), s, w)

  -- A chain that returns has returned from its first part.
  pub after-ok :
      {A B : Type 0} (f : A → Action S E B) (t : Outcome A × S × World E) (b : B)
      → (after f t).0 ≡ ok b
      → (a : A) × (t.0 ≡ ok a) × ((f a t.1 t.2).0 ≡ ok b)
  after-ok f (ok a, s, w) b e = (a, refl, e)
  after-ok f (throw x, s, w) b e = cc
  after-ok f (fault, s, w) b e = cc
  after-ok f (blocked, s, w) b e = cc

  -- What holds of the state behind a chain that returns, from its second part.
  pub after-elim {ℓ} :
      {A B : Type 0} (Q : S → Type ℓ) (f : A → Action S E B) (t : Outcome A × S × World E) (b : B)
      → (after f t).0 ≡ ok b
      → ((a : A) → t.0 ≡ ok a → (f a t.1 t.2).0 ≡ ok b → Q (f a t.1 t.2).1)
      → Q (after f t).1
  after-elim Q f (ok a, s, w) b e k = k a refl e
  after-elim Q f (throw x, s, w) b e k = cc
  after-elim Q f (fault, s, w) b e k = cc
  after-elim Q f (blocked, s, w) b e k = cc

  pub after-blocked :
      {A B : Type 0} (f : A → Action S E B) (t : Outcome A × S × World E)
      → t.0 ≡ blocked
      → (after f t).0 ≡ blocked
  after-blocked f (ok a, s, w) e = cc
  after-blocked f (throw x, s, w) e = cc
  after-blocked f (fault, s, w) e = cc
  after-blocked f (blocked, s, w) e = refl
