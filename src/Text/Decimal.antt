-- ===== src/Text/Decimal.antt =====
-- Rust's `to_string` and `parse` of the unsigned integer types.
use agentq.Prelude.{
  ℕ, zero, suc, ◌+◌, ◌-◌, ◌*◌, ◌/◌, ◌%◌, ◌≤◌, ◌<◌, ◌≡◌, ◌≢◌, refl, sym, ◌∙◌, ap, true, false, ◌&&◌,
  List, [], ◌∷◌, ◌++◌, append_assoc, Option, none, some, arith, ltb, leb, ◌==◌, if◌then◌else◌, All,
  All-append, Bool-cases, inl, inr, subst, append-nil, ltb→lt,
}

abbrev pub IsDigit : ℕ → Type 0
IsDigit c = (b'0' ≤ c) × (c ≤ b'9')

-- One digit for each round; the fuel is above the number of digits.
digits : ℕ → ℕ → List ℕ
digits zero n = []
digits (suc f) n = elim (ltb n 10) [
  | true ↦ (b'0' + n) ∷ []
  | false ↦ digits f (n / 10) ++ (b'0' + n % 10) ∷ []
]

-- `n.to_string()`
unfoldable pub decimal : ℕ → List ℕ
unfolding digits
decimal n = digits (suc n) n

-- The digits behind the value read so far; `none` where `checked_mul` or `checked_add` overflows.
scan : ℕ → ℕ → List ℕ → Option ℕ
scan limit n [] = some n
scan limit n (c ∷ s) =
    if leb b'0' c && leb c b'9' && leb (n * 10 + (c - b'0')) limit
    then scan limit (n * 10 + (c - b'0')) s
    else none

-- `s.parse::<T>()` where `T::MAX` is the first argument. One sign `+` may stand before digits.
unfoldable pub parse_uint : ℕ → List ℕ → Option ℕ
unfolding scan
parse_uint limit [] = none
parse_uint limit (c ∷ []) = scan limit 0 (c ∷ [])
parse_uint limit (c ∷ d ∷ s) = if c == b'+' then scan limit 0 (d ∷ s) else scan limit 0 (c ∷ d ∷ s)

digits-small : (f n : ℕ) → n < 10 → digits (suc f) n ≡ (b'0' + n) ∷ []
unfolding digits
digits-small f n h = ground arith

digits-large :
    (f n : ℕ) → ltb n 10 ≡ false → digits (suc f) n ≡ digits f (n / 10) ++ (b'0' + n % 10) ∷ []
unfolding digits
digits-large f n h = rw (h, digits)

scan_last :
    (limit n : ℕ) (rest : List ℕ)
    → n ≤ limit
    → scan limit (n / 10) ((b'0' + n % 10) ∷ rest) ≡ scan limit n rest
unfolding scan
scan_last limit n rest h = ground arith

scan_first :
    (limit n : ℕ) (rest : List ℕ)
    → n < 10
    → n ≤ limit
    → scan limit 0 ((b'0' + n) ∷ rest) ≡ scan limit n rest
unfolding scan
scan_first limit n rest h fits = ground arith

scan-digits :
    (limit f n : ℕ) (rest : List ℕ)
    → n < f
    → n ≤ limit
    → scan limit 0 (digits f n ++ rest) ≡ scan limit n rest
scan-digits limit zero n rest h fits = elim h [ ]
scan-digits limit (suc f) n rest h fits = elim (Bool-cases (ltb n 10)) [
  | inl small ↦
      let below = ltb→lt n 10 small in
      rw (digits-small f n below) (scan_first limit n rest below fits)
  | inr big ↦
      rw (digits-large f n big, append_assoc (digits f (n / 10)) ((b'0' + n % 10) ∷ []) rest)
        (scan-digits limit f (n / 10) ((b'0' + n % 10) ∷ rest) (ground arith) (omega arith)
          ∙ scan_last limit n rest fits)
]

digits-IsDigit : (f n : ℕ) → All IsDigit (digits f n)
digits-IsDigit zero n = unfold digits in tt
digits-IsDigit (suc f) n = elim (Bool-cases (ltb n 10)) [
  | inl small ↦
      let below = ltb→lt n 10 small in
      subst (All IsDigit) (sym (digits-small f n below)) (omega arith)
  | inr big ↦
      subst (All IsDigit) (sym (digits-large f n big))
        (All-append IsDigit _ _ (digits-IsDigit f (n / 10)) (omega arith))
]

pub decimal-IsDigit : (n : ℕ) → All IsDigit (decimal n)
unfolding decimal
decimal-IsDigit n = digits-IsDigit (suc n) n

snoc-ne-nil : (xs : List ℕ) (c : ℕ) → xs ++ c ∷ [] ≢ []
snoc-ne-nil [] c e = cc
snoc-ne-nil (x ∷ xs) c e = cc

digits-ne-nil : (f n : ℕ) → digits (suc f) n ≢ []
digits-ne-nil f n e = elim (Bool-cases (ltb n 10)) [
  | inl small ↦ cc (digits-small f n (ltb→lt n 10 small))
  | inr big ↦ snoc-ne-nil (digits f (n / 10)) (b'0' + n % 10) (sym (digits-large f n big) ∙ e)
]

scan-decimal :
    (limit n : ℕ) (rest : List ℕ) → n ≤ limit → scan limit 0 (decimal n ++ rest) ≡ scan limit n rest
unfolding decimal
scan-decimal limit n rest = scan-digits limit (suc n) n rest (omega arith)

-- Without a sign in front, `parse_uint` is the scan.
parse_uint-scan :
    (limit : ℕ) (s : List ℕ) → s ≢ [] → All IsDigit s → parse_uint limit s ≡ scan limit 0 s
unfolding parse_uint
parse_uint-scan limit [] h d = absurd (h refl)
parse_uint-scan limit (c ∷ []) h d = refl
parse_uint-scan limit (c ∷ e ∷ s) h d = ground arith

-- A number that fits the type is read back from its decimal print.
pub parse_uint-decimal : (limit n : ℕ) → n ≤ limit → parse_uint limit (decimal n) ≡ some n
parse_uint-decimal limit n fits =
    parse_uint-scan limit (decimal n) (unfold decimal in digits-ne-nil n n) (decimal-IsDigit n)
    ∙ ap (scan limit 0) (sym (append-nil (decimal n)))
    ∙ scan-decimal limit n [] fits
    ∙ (unfold scan in refl)
