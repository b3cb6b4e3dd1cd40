-- ===== src/Engine/Gives.antt =====
-- src/engine.rs: what a method replies, and the world it leaves, from the worlds of a kind.
use agentq.Prelude.{◌≡◌, refl, sym, subst}
use agentq.Engine.State.{World, Reply, Async, continue, ◌>>=◌}

module _ {S : Type 0} where
  -- From a world with `P`, the method replies `R` and leaves a world with `Q`.
  pub record Gives {A : Type 0} (P : World S → Type 0) (m : Async S A) (R : Reply A)
      (Q : World S → Type 0) : Type 0 where
    pub at : (v : World S) → P v → ((m v).0 ≡ R) × Q (m v).1

  module _ {A B : Type 0} {P Q T : World S → Type 0} {m : Async S A} {r : Reply A} {R : Reply B}
      (f : A → Async S B) where
    -- A bind goes on with the reply of its first part.
    pub bind-Gives : Gives P m r Q → Gives Q (continue r f) R T → Gives P (m >>= f) R T
    bind-Gives first after = record {
      at = λ v h.
          let (e, q) = first.at v h in
          subst (λ x. ((continue x f (m v).1).0 ≡ R) × T (continue x f (m v).1).1) (sym e)
            (after.at (m v).1 q);
    }

  module _ {A : Type 0} {P Q : World S → Type 0} {m : Async S A} {R : Reply A} where
    -- A weaker postcondition.
    pub then-Gives :
        {T : World S → Type 0} → ((v : World S) → Q v → T v) → Gives P m R Q → Gives P m R T
    then-Gives k g = record { at = λ v h. let (e, q) = g.at v h in (e, k (m v).1 q) }

  -- A method that only replies.
  pub stop-Gives :
      {A : Type 0} {P Q : World S → Type 0} (R : Reply A)
      → ((v : World S) → P v → Q v)
      → Gives P (λ v. (R, v)) R Q
  stop-Gives R k = record { at = λ v h. (refl, k v h) }
