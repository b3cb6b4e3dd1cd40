-- ===== src/Engine/Trace/Suffix.antt =====
-- The elements of a list from a position on.
use agentq.Prelude.{
  ℕ, zero, suc, ◌+◌, ◌-◌, ◌≤◌, ◌≡◌, refl, sym, ap, ◌∙◌, List, [], ◌∷◌, some, arith, length,
  get_elem?,
}

module _ {ℓ} {A : Type ℓ} where
  abbrev pub drop : ℕ → List A → List A
  drop zero xs = xs
  drop (suc i) [] = []
  drop (suc i) (x ∷ xs) = drop i xs

  -- `ys` are the elements of `xs` from the `i`-th on.
  abbrev pub From : ℕ → List A → List A → Type ℓ
  From i xs ys = (j : ℕ) → get_elem? xs (i + j) ≡ get_elem? ys j

  pub From-here : (i : ℕ) (xs ys : List A) → From i xs ys → get_elem? xs i ≡ get_elem? ys 0
  From-here i xs ys h = let e : i + 0 ≡ i = omega arith in ap (get_elem? xs) (sym e) ∙ h 0

  pub From-next : (i : ℕ) (x : A) (xs ys : List A) → From i xs (x ∷ ys) → From (suc i) xs ys
  From-next i x xs ys h j =
      let e : suc i + j ≡ i + suc j = omega arith in ap (get_elem? xs) e ∙ h (suc j)

  pub From-drop : (i : ℕ) (xs : List A) → From i xs (drop i xs)
  From-drop zero xs j = let e : 0 + j ≡ j = omega arith in ap (get_elem? xs) e
  From-drop (suc i) [] j = refl
  From-drop (suc i) (x ∷ xs) j =
      let e : suc i + j ≡ suc (i + j) = omega arith in ap (get_elem? (x ∷ xs)) e ∙ From-drop i xs j

  pub length-drop : (i : ℕ) (xs : List A) → length (drop i xs) ≡ length xs - i
  length-drop zero xs = omega arith
  length-drop (suc i) [] = omega arith
  length-drop (suc i) (x ∷ xs) = length-drop i xs ∙ omega arith

  -- An element at a position is within the length.
  pub get_elem?-within : (i : ℕ) (xs : List A) (x : A) → get_elem? xs i ≡ some x → suc i ≤ length xs
  get_elem?-within i [] x e = cc
  get_elem?-within zero (y ∷ xs) x e = omega arith
  get_elem?-within (suc i) (y ∷ xs) x e = omega (arith, get_elem?-within i xs x e)
