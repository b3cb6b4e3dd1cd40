-- ===== src/Engine/Key.antt =====
-- src/engine.rs: the key of an attempt's job, `format!("{workflow_id}:{step_index}:{attempt}")`.
use agentq.Prelude.{ℕ, ◌+◌, ◌≡◌, ◌≢◌, refl, sym, ap, ◌∙◌, List, [], ◌∷◌, ◌++◌, some, arith, All}
use agentq.Text.{Text}
use agentq.Text.Decimal.{decimal, IsDigit, decimal-IsDigit, parse_uint, parse_uint-decimal}
use agentq.Text.Lines.{Lacks}

unfoldable pub job_key : Text → ℕ → ℕ → Text
unfolding decimal
job_key workflow_id step_index attempt =
    (workflow_id ++ b':' ∷ decimal step_index) ++ b':' ∷ decimal attempt

some-injective : {A : Type 0} {a b : A} → some a ≡ some b → a ≡ b
some-injective h = cc

decimal-injective : (m n : ℕ) → decimal m ≡ decimal n → m ≡ n
decimal-injective m n e = some-injective (
    sym (parse_uint-decimal (m + n) m (omega arith))
    ∙ ap (parse_uint (m + n)) e
    ∙ parse_uint-decimal (m + n) n (omega arith))

Lacks-IsDigit : (s : List ℕ) → All IsDigit s → Lacks b':' s
Lacks-IsDigit [] h = tt
Lacks-IsDigit (c ∷ s) h = (λ e. omega arith, Lacks-IsDigit s h.1)

Lacks-decimal : (n : ℕ) → Lacks b':' (decimal n)
Lacks-decimal n = Lacks-IsDigit (decimal n) (decimal-IsDigit n)

Lacks-ne : (c : ℕ) (ds ys es : List ℕ) → Lacks c ds → ds ≢ ys ++ c ∷ es
Lacks-ne c [] [] es h e = cc
Lacks-ne c [] (y ∷ ys) es h e = cc
Lacks-ne c (d ∷ ds) [] es h e = h.0 (ground arith)
Lacks-ne c (d ∷ ds) (y ∷ ys) es h e = Lacks-ne c ds ys es h.1 (ground arith)

-- The last separator cuts a text in one way.
cut :
    (c : ℕ) (xs ys ds es : List ℕ)
    → Lacks c ds
    → Lacks c es
    → xs ++ c ∷ ds ≡ ys ++ c ∷ es
    → (xs ≡ ys) × (ds ≡ es)
cut c [] [] ds es h k e = (refl, ground arith)
cut c [] (y ∷ ys) ds es h k e = absurd (Lacks-ne c ds ys es h (ground arith))
cut c (x ∷ xs) [] ds es h k e = absurd (Lacks-ne c es xs ds k (ground arith))
cut c (x ∷ xs) (y ∷ ys) ds es h k e =
    let rest : xs ++ c ∷ ds ≡ ys ++ c ∷ es = ground arith in
    let (xs_eq, ds_eq) = cut c xs ys ds es h k rest in (ground arith, ds_eq)

-- The job keys of two attempts are equal only if the workflow, the step and the attempt are, also
-- when a workflow's id holds colons.
pub job_key-injective :
    (w w' : Text) (i i' a a' : ℕ)
    → job_key w i a ≡ job_key w' i' a'
    → (w ≡ w') × (i ≡ i') × (a ≡ a')
unfolding job_key
job_key-injective w w' i i' a a' e =
    let (front, a_eq) =
      cut b':' (w ++ b':' ∷ decimal i) (w' ++ b':' ∷ decimal i') (decimal a) (decimal a')
        (Lacks-decimal a) (Lacks-decimal a') e in
    let (w_eq, i_eq) =
      cut b':' w w' (decimal i) (decimal i') (Lacks-decimal i) (Lacks-decimal i') front in
    (w_eq, decimal-injective i i' i_eq, decimal-injective a a' a_eq)
