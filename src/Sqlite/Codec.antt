-- ===== src/Sqlite/Codec.antt =====
-- src/store/sqlite.rs: the line-based encoding of an event, and its decoder.
-- The iterator over the lines of a payload is the list of the lines that are left.
pub mod Escape
pub mod RoundTrip
use agentq.Prelude.{
  ℕ, ◌-◌, ◌^◌, Bool, true, false, List, [], ◌∷◌, ◌++◌, Option, none, some, Result, ok, err, ◌>>=◌,
  ok_or, ◌==◌, if◌then◌else◌,
}
use agentq.Text.{Text, codes, newline, backslash, text_eq}
use agentq.Text.Decimal.{decimal, parse_uint}
use agentq.Text.Lines.{split, join, replace}
use agentq.Event.{
  Event, workflow_started, step_started, step_completed, step_failed, retry_scheduled, step_waiting,
  step_resumed, workflow_completed, workflow_failed, workflow_cancelled, worker_recovered,
}
use agentq.Store.{StoreError, backend}

abbrev pub usize_max : ℕ
usize_max = 2 ^ 64 - 1

abbrev pub u32_max : ℕ
u32_max = 2 ^ 32 - 1

unfoldable pub event_workflow_id : Event → Text
event_workflow_id (workflow_started workflow_id) = workflow_id
event_workflow_id (step_started workflow_id _ _) = workflow_id
event_workflow_id (step_completed workflow_id _ _) = workflow_id
event_workflow_id (step_failed workflow_id _ _) = workflow_id
event_workflow_id (retry_scheduled workflow_id _ _) = workflow_id
event_workflow_id (step_waiting workflow_id _ _) = workflow_id
event_workflow_id (step_resumed workflow_id _ _) = workflow_id
event_workflow_id (workflow_completed workflow_id) = workflow_id
event_workflow_id (workflow_failed workflow_id _) = workflow_id
event_workflow_id (workflow_cancelled workflow_id _) = workflow_id
event_workflow_id (worker_recovered workflow_id _) = workflow_id

unfoldable pub escape_field : Text → Text
escape_field s =
    replace newline (backslash ∷ b'n' ∷ []) (replace backslash (backslash ∷ backslash ∷ []) s)

-- What an escape stands for, by the character behind the backslash.
unescaped : ℕ → Text
unescaped c =
    if c == b'n'
    then newline ∷ []
    else if c == backslash
    then backslash ∷ []
    else backslash ∷ c ∷ []

-- The loop of `unescape_field`; the first argument says that a backslash has been read.
unescape_loop : Bool → Text → Text
unfolding unescaped
unescape_loop false [] = []
unescape_loop true [] = backslash ∷ []
unescape_loop false (c ∷ s) =
    let escaped = unescape_loop true s in
    let plain = c ∷ unescape_loop false s in if c == backslash then escaped else plain
unescape_loop true (c ∷ s) = unescaped c ++ unescape_loop false s

unfoldable pub unescape_field : Text → Text
unfolding unescape_loop
unescape_field s = unescape_loop false s

-- The lines that `encode_event` joins.
unfoldable pub event_lines : Event → List Text
event_lines (workflow_started workflow_id) = codes "WorkflowStarted" ∷ escape_field workflow_id ∷ []
event_lines (step_started workflow_id step_index attempt) =
    codes "StepStarted" ∷ escape_field workflow_id ∷ decimal step_index ∷ decimal attempt ∷ []
event_lines (step_completed workflow_id step_index output) =
    codes "StepCompleted" ∷ escape_field workflow_id ∷ decimal step_index ∷ escape_field output ∷ []
event_lines (step_failed workflow_id step_index reason) =
    codes "StepFailed" ∷ escape_field workflow_id ∷ decimal step_index ∷ escape_field reason ∷ []
event_lines (retry_scheduled workflow_id step_index attempt) =
    codes "RetryScheduled" ∷ escape_field workflow_id ∷ decimal step_index ∷ decimal attempt ∷ []
event_lines (step_waiting workflow_id step_index reason) =
    codes "StepWaiting" ∷ escape_field workflow_id ∷ decimal step_index ∷ escape_field reason ∷ []
event_lines (step_resumed workflow_id step_index input) =
    codes "StepResumed" ∷ escape_field workflow_id ∷ decimal step_index ∷ escape_field input ∷ []
event_lines (workflow_completed workflow_id) =
    codes "WorkflowCompleted" ∷ escape_field workflow_id ∷ []
event_lines (workflow_failed workflow_id reason) =
    codes "WorkflowFailed" ∷ escape_field workflow_id ∷ escape_field reason ∷ []
event_lines (workflow_cancelled workflow_id reason) =
    codes "WorkflowCancelled" ∷ escape_field workflow_id ∷ escape_field reason ∷ []
event_lines (worker_recovered workflow_id step_index) =
    codes "WorkerRecovered" ∷ escape_field workflow_id ∷ decimal step_index ∷ []

unfoldable pub encode_event : Event → Text
encode_event event = join newline (event_lines event)

-- `lines.next()`, with the error of a payload that ends too early.
next_line : List Text → Result StoreError (Text × List Text)
next_line [] = err (backend (codes "truncated event payload"))
next_line (line ∷ lines) = ok (line, lines)

read_field : List Text → Result StoreError (Text × List Text)
unfolding next_line
read_field lines = do (line, rest) ← next_line lines; ok (unescape_field line, rest)

read_usize : List Text → Result StoreError (ℕ × List Text)
unfolding next_line
read_usize lines = do
  (line, rest) ← next_line lines
  n ← ok_or (parse_uint usize_max line) (backend (codes "invalid step_index in event payload"))
  ok (n, rest)

read_u32 : List Text → Result StoreError (ℕ × List Text)
unfolding next_line
read_u32 lines = do
  (line, rest) ← next_line lines
  n ← ok_or (parse_uint u32_max line) (backend (codes "invalid attempt in event payload"))
  ok (n, rest)

-- The fields of each shape of event, read in the order of the source.
read_workflow : (Text → Event) → List Text → Result StoreError Event
unfolding read_field
read_workflow make lines = do (workflow_id, _) ← read_field lines; ok (make workflow_id)

read_step : (Text → ℕ → Event) → List Text → Result StoreError Event
unfolding read_field read_usize
read_step make lines = do
  (workflow_id, rest) ← read_field lines
  (step_index, _) ← read_usize rest
  ok (make workflow_id step_index)

read_step_attempt : (Text → ℕ → ℕ → Event) → List Text → Result StoreError Event
unfolding read_field read_usize read_u32
read_step_attempt make lines = do
  (workflow_id, rest) ← read_field lines
  (step_index, rest') ← read_usize rest
  (attempt, _) ← read_u32 rest'
  ok (make workflow_id step_index attempt)

read_step_text : (Text → ℕ → Text → Event) → List Text → Result StoreError Event
unfolding read_field read_usize
read_step_text make lines = do
  (workflow_id, rest) ← read_field lines
  (step_index, rest') ← read_usize rest
  (text, _) ← read_field rest'
  ok (make workflow_id step_index text)

read_workflow_text : (Text → Text → Event) → List Text → Result StoreError Event
unfolding read_field
read_workflow_text make lines = do
  (workflow_id, rest) ← read_field lines
  (text, _) ← read_field rest
  ok (make workflow_id text)

-- The `match` on the first line.
decode_kind : Text → List Text → Result StoreError Event
unfolding read_workflow read_step read_step_attempt read_step_text read_workflow_text
decode_kind kind lines =
    if text_eq kind (codes "WorkflowStarted")
    then read_workflow workflow_started lines
    else if text_eq kind (codes "StepStarted")
    then read_step_attempt step_started lines
    else if text_eq kind (codes "StepCompleted")
    then read_step_text step_completed lines
    else if text_eq kind (codes "StepFailed")
    then read_step_text step_failed lines
    else if text_eq kind (codes "RetryScheduled")
    then read_step_attempt retry_scheduled lines
    else if text_eq kind (codes "StepWaiting")
    then read_step_text step_waiting lines
    else if text_eq kind (codes "StepResumed")
    then read_step_text step_resumed lines
    else if text_eq kind (codes "WorkflowCompleted")
    then read_workflow workflow_completed lines
    else if text_eq kind (codes "WorkflowFailed")
    then read_workflow_text workflow_failed lines
    else if text_eq kind (codes "WorkflowCancelled")
    then read_workflow_text workflow_cancelled lines
    else if text_eq kind (codes "WorkerRecovered")
    then read_step worker_recovered lines
    else err (backend (codes "unknown event kind: " ++ kind))

decode_lines : List Text → Result StoreError Event
unfolding decode_kind
decode_lines [] = err (backend (codes "empty event payload"))
decode_lines (kind ∷ lines) = decode_kind kind lines

unfoldable pub decode_event : Text → Result StoreError Event
unfolding decode_lines
decode_event payload = decode_lines (split newline payload)
