-- ===== src/Effect/Live.antt =====
-- Which reply objects are alive, read off the log.
use cpp_hiredis_cluster.Base.{
  ℕ, List, [], ◌∷◌, Option, none, some, ◌==◌, ==_iff, if◌then◌else◌, ◌≡◌, ◌≢◌, refl, ◌∙◌,
}
use cpp_hiredis_cluster.Int.{ℤ}
use cpp_hiredis_cluster.Text.{Text}
use cpp_hiredis_cluster.Effect.Exception.{Exception}
use cpp_hiredis_cluster.Effect.Reply.{RedisReply}
use cpp_hiredis_cluster.Effect.Monad.{
  Outcome, ok, throw, fault, blocked, Conn, Event, opened, closed, received, freed, created,
  destroyed, submitted, answered, Hiredis, World, Action, after,
}
use cpp_hiredis_cluster.Effect.Calls.{free_reply, log_opened, open_connection}

prepend : ℕ → Option (List ℕ) → Option (List ℕ)
prepend a none = none
prepend a (some l) = some (a ∷ l)

-- `none` if the object is not alive: it is freed twice, or was never received.
without : ℕ → List ℕ → Option (List ℕ)
unfolding prepend
without a [] = none
without a (x ∷ l) = if x == a then some l else prepend x (without a l)

without_live : ℕ → Option (List ℕ) → Option (List ℕ)
unfolding without
without_live a none = none
without_live a (some l) = without a l

-- The replies received and not freed since; `none` once an object was freed that was not alive.
unfoldable pub live : List Event → Option (List ℕ)
unfolding prepend without_live
live [] = some []
live (received a ∷ log) = prepend a (live log)
live (freed a ∷ log) = without_live a (live log)
live (opened c ∷ log) = live log
live (closed c ∷ log) = live log
live (created ∷ log) = live log
live (destroyed ∷ log) = live log
live (submitted c ∷ log) = live log
live (answered ∷ log) = live log

pub live-freed :
    (a : ℕ) (l : List ℕ) (log : List Event)
    → live log ≡ some (a ∷ l)
    → live (freed a ∷ log) ≡ some l
unfolding live
live-freed a l log e = rw (e, (==_iff a a).1 refl)

pub live-received :
    (a : ℕ) (l : List ℕ) (log : List Event)
    → live log ≡ some l
    → live (received a ∷ log) ≡ some (a ∷ l)
unfolding live
live-received a l log e = rw e

module _ {S E : Type 0} where
  -- Whatever the call does, the same replies are alive behind it.
  abbrev pub KeepsReplies : {A : Type 0} → Action S E A → Type 0
  KeepsReplies m = (s : S) (w : World E) → live (m s w).2.log ≡ live w.log

  -- It does not throw.
  abbrev pub NeverThrows : {A : Type 0} → Action S E A → Type 0
  NeverThrows m = (s : S) (w : World E) (x : Exception) → (m s w).0 ≢ throw x

  -- The replies `base` are alive at the end, and the returned one besides them: a call that throws
  -- has freed what it received.
  abbrev pub Owns : List ℕ → Outcome (Option RedisReply) × S × World E → Type 0
  Owns base (ok none, s, w) = live w.log ≡ some base
  Owns base (ok (some r), s, w) = live w.log ≡ some (r.address ∷ base)
  Owns base (throw e, s, w) = live w.log ≡ some base
  Owns base (fault, s, w) = Unit {0}
  Owns base (blocked, s, w) = Unit {0}

  abbrev pub Ends : List ℕ → List ℕ → Action S E (Option RedisReply) → Type 0
  Ends now base m = (s : S) (w : World E) → live w.log ≡ some now → Owns base (m s w)

  Owns-after :
      {A : Type 0} (base : List ℕ) (f : A → Action S E (Option RedisReply))
      (t : Outcome A × S × World E)
      → live t.2.log ≡ some base
      → ((a : A) → Ends base base (f a))
      → Owns base (after f t)
  Owns-after base f (ok a, s, w) e k = k a s w e
  Owns-after base f (throw x, s, w) e k = e
  Owns-after base f (fault, s, w) e k = tt
  Owns-after base f (blocked, s, w) e k = tt

  -- A call that may throw, while no reply is held.
  pub Ends-keep :
      {A : Type 0} (base : List ℕ) (m : Action S E A) (f : A → Action S E (Option RedisReply))
      → KeepsReplies m
      → ((a : A) → Ends base base (f a))
      → Ends base base (λ s w. after f (m s w))
  Ends-keep base m f keeps k s w e = Owns-after base f (m s w) (keeps s w ∙ e) k

  Owns-after_ok :
      {A : Type 0} (now base : List ℕ) (f : A → Action S E (Option RedisReply))
      (t : Outcome A × S × World E)
      → ((x : Exception) → t.0 ≢ throw x)
      → live t.2.log ≡ some now
      → ((a : A) → Ends now base (f a))
      → Owns base (after f t)
  Owns-after_ok now base f (ok b, s, w) r e k = k b s w e
  Owns-after_ok now base f (throw x, s, w) r e k = absurd (r x refl)
  Owns-after_ok now base f (fault, s, w) r e k = tt
  Owns-after_ok now base f (blocked, s, w) r e k = tt

  -- A call that cannot throw, while a reply is held.
  pub Ends-return :
      {A : Type 0} (now base : List ℕ) (m : Action S E A) (f : A → Action S E (Option RedisReply))
      → NeverThrows m
      → KeepsReplies m
      → ((a : A) → Ends now base (f a))
      → Ends now base (λ s w. after f (m s w))
  Ends-return now base m f returns keeps k s w e =
      Owns-after_ok now base f (m s w) (returns s w) (keeps s w ∙ e) k

  pub Ends-free :
      (base : List ℕ) (r : RedisReply) (m : Action S E (Option RedisReply))
      → Ends base base m
      → Ends (r.address ∷ base) base (λ s w. after (λ _. m) (free_reply r s w))
  unfolding free_reply
  Ends-free base r m k s w e = k s _ (live-freed r.address base w.log e)

module _ {S E A B : Type 0} where
  live-after :
      (f : A → Action S E B) (t : Outcome A × S × World E)
      → ((a : A) → KeepsReplies (f a))
      → live (after f t).2.log ≡ live t.2.log
  live-after f (ok a, s, w) keeps = keeps a s w
  live-after f (throw x, s, w) keeps = refl
  live-after f (fault, s, w) keeps = refl
  live-after f (blocked, s, w) keeps = refl

  pub bind-KeepsReplies :
      (m : Action S E A) (f : A → Action S E B)
      → KeepsReplies m
      → ((a : A) → KeepsReplies (f a))
      → KeepsReplies (λ s w. after f (m s w))
  bind-KeepsReplies m f keeps then_keeps s w = live-after f (m s w) then_keeps ∙ keeps s w

module _ {E : Type 0} (h : Hiredis E) where
  live-log_opened :
      (r : Outcome (Option Conn)) (log : List Event) → live (log_opened r log) ≡ live log
  unfolding live log_opened
  live-log_opened (ok none) log = refl
  live-log_opened (ok (some c)) log = refl
  live-log_opened (throw x) log = refl
  live-log_opened fault log = refl
  live-log_opened blocked log = refl

  pub open_connection-KeepsReplies :
      {S : Type 0} (host : Text) (port : ℤ) → KeepsReplies {S = S} (open_connection h host port)
  unfolding open_connection
  open_connection-KeepsReplies host port s w =
      live-log_opened (h.connect host port w.outside).0 w.log
