-- ===== src/Engine/Ensures.antt =====
-- src/engine.rs: pre- and postconditions of the engine's methods.
use agentq.Engine.State.{
  World, Reply, returned, failed, panicked, blocked, Async, continue, ◌>>=◌, ◌>>◌,
}

module _ {S : Type 0} where
  -- From a world with `P`, a method ends in a reply and a world with `Q`.
  pub record Ensures {A : Type 0} (P : World S → Type 0) (m : Async S A)
      (Q : Reply A → World S → Type 0) : Type 0 where
    pub at : (w : World S) → P w → Q (m w).0 (m w).1

  -- A postcondition on the replies that are not a value goes through a bind.
  abbrev pub Passes :
      {A B : Type 0} → (Reply A → World S → Type 0) → (Reply B → World S → Type 0) → Type 0
  Passes {A} {B} R Q =
      (w : World S)
      → ((e : agentq.Engine.State.EngineError) → R (failed e) w → Q (failed e) w)
        × (R panicked w → Q panicked w)
        × (R blocked w → Q blocked w)

  module _ {A B : Type 0} (R : Reply A → World S → Type 0) (Q : Reply B → World S → Type 0)
      (passes : Passes R Q) (f : A → Async S B)
      (after : (a : A) → Ensures (R (returned a)) (f a) Q) where
    pub continue-Ensures :
        (r : Reply A) (w : World S) → R r w → Q (continue r f w).0 (continue r f w).1
    continue-Ensures (returned a) w h = (after a).at w h
    continue-Ensures (failed e) w h = (passes w).0 e h
    continue-Ensures panicked w h = (passes w).1 h
    continue-Ensures blocked w h = (passes w).2 h

    pub bind-Ensures :
        {P : World S → Type 0} {m : Async S A} → Ensures P m R → Ensures P (m >>= f) Q
    bind-Ensures {m = m} first = record {
      at = λ w h. continue-Ensures (m w).0 (m w).1 (first.at w h);
    }
