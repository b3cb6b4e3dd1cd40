-- ===== src/Sqlite/Codec/RoundTrip.antt =====
-- A stored event is decoded to itself.
use agentq.Prelude.{ℕ, ◌≤◌, ◌≡◌, [], ◌∷◌, arith, ok, All}
use agentq.Text.{Text, newline, text_eq}
use agentq.Text.Decimal.{decimal, parse_uint-decimal, decimal-IsDigit, IsDigit}
use agentq.Text.Lines.{split, split-join, Lacks}
use agentq.Event.{
  Event, workflow_started, step_started, step_completed, step_failed, retry_scheduled, step_waiting,
  step_resumed, workflow_completed, workflow_failed, workflow_cancelled, worker_recovered,
}
use agentq.Sqlite.Codec.{
  usize_max, u32_max, event_lines, encode_event, decode_event, decode_lines, escape_field,
  read_workflow, read_workflow_text, read_step, read_step_attempt, read_step_text,
}
use agentq.Sqlite.Codec.Escape.{unescape_field-escape_field, escape_field-Lacks}

-- The numbers of an event fit `usize` and `u32`.
abbrev pub FitsTypes : Event → Type 0
FitsTypes (step_started _ step_index attempt) = (step_index ≤ usize_max) × (attempt ≤ u32_max)
FitsTypes (step_completed _ step_index _) = step_index ≤ usize_max
FitsTypes (step_failed _ step_index _) = step_index ≤ usize_max
FitsTypes (retry_scheduled _ step_index attempt) = (step_index ≤ usize_max) × (attempt ≤ u32_max)
FitsTypes (step_waiting _ step_index _) = step_index ≤ usize_max
FitsTypes (step_resumed _ step_index _) = step_index ≤ usize_max
FitsTypes (worker_recovered _ step_index) = step_index ≤ usize_max
FitsTypes _ = Unit

digits-Lacks : (s : Text) → All IsDigit s → Lacks newline s
digits-Lacks [] h = tt
digits-Lacks (c ∷ s) h = (λ e. omega arith, digits-Lacks s h.1)

decimal-Lacks : (n : ℕ) → Lacks newline (decimal n)
decimal-Lacks n = digits-Lacks (decimal n) (decimal-IsDigit n)

event_lines-Lacks : (e : Event) → All (Lacks newline) (event_lines e)
unfolding event_lines
event_lines-Lacks (workflow_started w) = (omega arith, (escape_field-Lacks w, tt))
event_lines-Lacks (step_started w i a) =
    (omega arith, (escape_field-Lacks w, (decimal-Lacks i, (decimal-Lacks a, tt))))
event_lines-Lacks (step_completed w i t) =
    (omega arith, (escape_field-Lacks w, (decimal-Lacks i, (escape_field-Lacks t, tt))))
event_lines-Lacks (step_failed w i t) =
    (omega arith, (escape_field-Lacks w, (decimal-Lacks i, (escape_field-Lacks t, tt))))
event_lines-Lacks (retry_scheduled w i a) =
    (omega arith, (escape_field-Lacks w, (decimal-Lacks i, (decimal-Lacks a, tt))))
event_lines-Lacks (step_waiting w i t) =
    (omega arith, (escape_field-Lacks w, (decimal-Lacks i, (escape_field-Lacks t, tt))))
event_lines-Lacks (step_resumed w i t) =
    (omega arith, (escape_field-Lacks w, (decimal-Lacks i, (escape_field-Lacks t, tt))))
event_lines-Lacks (workflow_completed w) = (omega arith, (escape_field-Lacks w, tt))
event_lines-Lacks (workflow_failed w t) =
    (omega arith, (escape_field-Lacks w, (escape_field-Lacks t, tt)))
event_lines-Lacks (workflow_cancelled w t) =
    (omega arith, (escape_field-Lacks w, (escape_field-Lacks t, tt)))
event_lines-Lacks (worker_recovered w i) =
    (omega arith, (escape_field-Lacks w, (decimal-Lacks i, tt)))

-- The lines of a payload are the lines that were joined.
split-encode_event : (e : Event) → split newline (encode_event e) ≡ event_lines e
unfolding encode_event event_lines
split-encode_event (workflow_started w) =
    split-join newline _ _ (event_lines-Lacks (workflow_started w))
split-encode_event e = split-join newline _ _ (event_lines-Lacks e)

read_workflow-lines :
    (make : Text → Event) (w : Text) → read_workflow make (escape_field w ∷ []) ≡ ok (make w)
unfolding read_workflow
read_workflow-lines make w = simp unescape_field-escape_field

read_workflow_text-lines :
    (make : Text → Text → Event) (w t : Text)
    → read_workflow_text make (escape_field w ∷ escape_field t ∷ []) ≡ ok (make w t)
unfolding read_workflow_text
read_workflow_text-lines make w t = simp unescape_field-escape_field

read_step-lines :
    (make : Text → ℕ → Event) (w : Text) (i : ℕ)
    → i ≤ usize_max
    → read_step make (escape_field w ∷ decimal i ∷ []) ≡ ok (make w i)
unfolding read_step
read_step-lines make w i hi = rw (unescape_field-escape_field w, parse_uint-decimal usize_max i hi)

read_step_attempt-lines :
    (make : Text → ℕ → ℕ → Event) (w : Text) (i a : ℕ)
    → i ≤ usize_max
    → a ≤ u32_max
    → read_step_attempt make (escape_field w ∷ decimal i ∷ decimal a ∷ []) ≡ ok (make w i a)
unfolding read_step_attempt
read_step_attempt-lines make w i a hi ha = rw (
  unescape_field-escape_field w,
  parse_uint-decimal usize_max i hi,
  parse_uint-decimal u32_max a ha,
)

read_step_text-lines :
    (make : Text → ℕ → Text → Event) (w : Text) (i : ℕ) (t : Text)
    → i ≤ usize_max
    → read_step_text make (escape_field w ∷ decimal i ∷ escape_field t ∷ []) ≡ ok (make w i t)
unfolding read_step_text
read_step_text-lines make w i t hi = rw (
  unescape_field-escape_field w,
  parse_uint-decimal usize_max i hi,
  unescape_field-escape_field t,
)

decode_lines-event_lines : (e : Event) → FitsTypes e → decode_lines (event_lines e) ≡ ok e
unfolding decode_lines event_lines text_eq
decode_lines-event_lines (workflow_started w) h = read_workflow-lines workflow_started w
decode_lines-event_lines (step_started w i a) h = read_step_attempt-lines step_started w i a h.0 h.1
decode_lines-event_lines (step_completed w i t) h = read_step_text-lines step_completed w i t h
decode_lines-event_lines (step_failed w i t) h = read_step_text-lines step_failed w i t h
decode_lines-event_lines (retry_scheduled w i a) h =
    read_step_attempt-lines retry_scheduled w i a h.0 h.1
decode_lines-event_lines (step_waiting w i t) h = read_step_text-lines step_waiting w i t h
decode_lines-event_lines (step_resumed w i t) h = read_step_text-lines step_resumed w i t h
decode_lines-event_lines (workflow_completed w) h = read_workflow-lines workflow_completed w
decode_lines-event_lines (workflow_failed w t) h = read_workflow_text-lines workflow_failed w t
decode_lines-event_lines (workflow_cancelled w t) h =
    read_workflow_text-lines workflow_cancelled w t
decode_lines-event_lines (worker_recovered w i) h = read_step-lines worker_recovered w i h

-- Decoding the payload of an event gives the event back, whatever its texts hold, if its step index
-- fits `usize` and its attempt fits `u32`.
pub decode_event-encode_event :
    (event : Event) → FitsTypes event → decode_event (encode_event event) ≡ ok event
unfolding decode_event
decode_event-encode_event event h = rw (split-encode_event event) (decode_lines-event_lines event h)
