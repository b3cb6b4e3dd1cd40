-- ===== src/Text/Lines.antt =====
-- `split` at a character and `join` by one, and `replace` of a character by a text.
use agentq.Prelude.{ℕ, ◌≡◌, ◌≢◌, refl, List, [], ◌∷◌, ◌++◌, arith, ◌==◌, if◌then◌else◌, All}

abbrev pub Lacks : ℕ → List ℕ → Type 0
Lacks b = All (λ c. c ≢ b)

cons_first : ℕ → List (List ℕ) → List (List ℕ)
cons_first c [] = (c ∷ []) ∷ []
cons_first c (l ∷ ls) = (c ∷ l) ∷ ls

-- `s.split(sep)`: one part more than there are separators.
unfoldable pub split : ℕ → List ℕ → List (List ℕ)
unfolding cons_first
split sep [] = [] ∷ []
split sep (c ∷ s) = let rest = split sep s in if c == sep then [] ∷ rest else cons_first c rest

-- `lines.join(sep)`
unfoldable pub join : ℕ → List (List ℕ) → List ℕ
join sep [] = []
join sep (l ∷ []) = l
join sep (l ∷ k ∷ ls) = l ++ sep ∷ join sep (k ∷ ls)

-- `s.replace(c, w)`
unfoldable pub replace : ℕ → List ℕ → List ℕ → List ℕ
replace c w [] = []
replace c w (d ∷ s) = let rest = replace c w s in if d == c then w ++ rest else d ∷ rest

split-Lacks : (sep : ℕ) (l : List ℕ) → Lacks sep l → split sep l ≡ l ∷ []
unfolding split
split-Lacks sep [] h = refl
split-Lacks sep (c ∷ l) h = ground (arith, split-Lacks sep l h.1)

split-append :
    (sep : ℕ) (l rest : List ℕ) → Lacks sep l → split sep (l ++ sep ∷ rest) ≡ l ∷ split sep rest
unfolding split
split-append sep [] rest h = ground arith
split-append sep (c ∷ l) rest h = ground (arith, split-append sep l rest h.1)

-- Splitting a join gives the parts back, if there is a part and none holds the separator.
pub split-join :
    (sep : ℕ) (l : List ℕ) (ls : List (List ℕ))
    → All (Lacks sep) (l ∷ ls)
    → split sep (join sep (l ∷ ls)) ≡ l ∷ ls
unfolding join
split-join sep l [] h = split-Lacks sep l h.0
split-join sep l (k ∷ ls) h =
    rw (split-append sep l (join sep (k ∷ ls)) h.0, split-join sep k ls h.1)
