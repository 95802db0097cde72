-- ===== src/Effect/Defined.antt =====
-- Calls that come back: they return or throw.
use cpp_hiredis_cluster.Base.{Bool, true, false, if◌then◌else◌}
use cpp_hiredis_cluster.Effect.Monad.{Outcome, ok, throw, fault, blocked, World, Action, after}

abbrev pub ComesBack : {A S E : Type 0} → (A → Type 0) → Outcome A × S × World E → Type 0
ComesBack P (ok a, s, w) = P a
ComesBack P (throw x, s, w) = Unit {0}
ComesBack P (fault, s, w) = ⊥
ComesBack P (blocked, s, w) = ⊥

abbrev pub Anything : {A : Type 0} → A → Type 0
Anything a = Unit {0}

module _ {S E : Type 0} where
  -- In every state the call returns a value with the property, or throws.
  abbrev pub IsDefined : {A : Type 0} → (A → Type 0) → Action S E A → Type 0
  IsDefined P m = (s : S) (w : World E) → ComesBack P (m s w)

  module _ {A B : Type 0} (P : A → Type 0) (Q : B → Type 0) (f : A → Action S E B) where
    ComesBack-after :
        (t : Outcome A × S × World E)
        → ComesBack P t
        → ((a : A) → P a → IsDefined Q (f a))
        → ComesBack Q (after f t)
    ComesBack-after (ok a, s, w) p k = k a p s w
    ComesBack-after (throw x, s, w) p k = tt
    ComesBack-after (fault, s, w) p k = p
    ComesBack-after (blocked, s, w) p k = p

    pub bind-IsDefined :
        (m : Action S E A)
        → IsDefined P m
        → ((a : A) → P a → IsDefined Q (f a))
        → IsDefined Q (λ s w. after f (m s w))
    bind-IsDefined m defined k s w = ComesBack-after (m s w) (defined s w) k

  pub choose-IsDefined :
      {A : Type 0} (P : A → Type 0) (b : Bool) (m n : Action S E A)
      → IsDefined P m
      → IsDefined P n
      → IsDefined P (if b then m else n)
  choose-IsDefined P true m n p q = p
  choose-IsDefined P false m n p q = q

pub ComesBack-state :
    {A S T E : Type 0} (P : A → Type 0) (g : S → T) (t : Outcome A × S × World E)
    → ComesBack P t
    → ComesBack P (t.0, g t.1, t.2)
ComesBack-state P g (ok a, s, w) p = p
ComesBack-state P g (throw x, s, w) p = p
ComesBack-state P g (fault, s, w) p = p
ComesBack-state P g (blocked, s, w) p = p
