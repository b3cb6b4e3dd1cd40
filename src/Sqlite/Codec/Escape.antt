-- ===== src/Sqlite/Codec/Escape.antt =====
-- `escape_field` and `unescape_field` are inverse, and an escaped field is one line.
use agentq.Prelude.{ℕ, ◌≡◌, refl, false, [], ◌∷◌, ◌++◌, arith, ◌==◌, if◌then◌else◌, All-append}
use agentq.Text.{Text, newline, backslash}
use agentq.Text.Lines.{replace, Lacks}
use agentq.Sqlite.Codec.{escape_field, unescape_field, unescape_loop}

-- What stands for one character in an escaped field.
escaped : ℕ → Text
escaped c =
    if c == backslash
    then backslash ∷ backslash ∷ []
    else if c == newline
    then backslash ∷ b'n' ∷ []
    else c ∷ []

escape_field-cons : (c : ℕ) (s : Text) → escape_field (c ∷ s) ≡ escaped c ++ escape_field s
unfolding escape_field escaped replace
escape_field-cons c s = ground arith

unescape-escaped :
    (c : ℕ) (rest : Text) → unescape_loop false (escaped c ++ rest) ≡ c ∷ unescape_loop false rest
unfolding unescape_loop escaped
unescape-escaped c rest = ground arith

unescape_field-cons :
    (c : ℕ) (s : Text)
    → unescape_field (escaped c ++ escape_field s) ≡ c ∷ unescape_field (escape_field s)
unfolding unescape_field
unescape_field-cons c s = unescape-escaped c (escape_field s)

-- Reading an escaped field gives the field back, whatever characters it has.
pub unescape_field-escape_field : (s : Text) → unescape_field (escape_field s) ≡ s
unescape_field-escape_field [] = unfold unescape_field escape_field unescape_loop replace in refl
unescape_field-escape_field (c ∷ s) =
    rw (escape_field-cons c s, unescape_field-cons c s, unescape_field-escape_field s)

escaped-Lacks : (c : ℕ) → Lacks newline (escaped c)
unfolding escaped
escaped-Lacks c = ground arith

-- An escaped field holds no line break.
pub escape_field-Lacks : (s : Text) → Lacks newline (escape_field s)
escape_field-Lacks [] = unfold escape_field replace in tt
escape_field-Lacks (c ∷ s) =
    rw escape_field-cons (All-append _ (escaped c) _ (escaped-Lacks c) (escape_field-Lacks s))
