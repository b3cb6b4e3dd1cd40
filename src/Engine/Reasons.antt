-- ===== src/Engine/Reasons.antt =====
-- src/engine.rs: the marker errors of a step body and how the engine reads them back.
use agentq.Prelude.{◌≡◌, refl, ◌++◌, Option, none, some, ◌↔◌}
use agentq.Text.{Text, codes, strip_prefix, strip_prefix_iff}

abbrev wait_prefix : Text
wait_prefix = codes "agentq:wait:"

abbrev non_retryable_prefix : Text
non_retryable_prefix = codes "agentq:non-retryable:"

unfoldable pub parse_waiting_reason : Text → Option Text
unfolding strip_prefix
parse_waiting_reason reason = strip_prefix wait_prefix reason

unfoldable pub parse_non_retryable_reason : Text → Option Text
unfolding strip_prefix
parse_non_retryable_reason reason = strip_prefix non_retryable_prefix reason

-- `Display` of `WaitForInput` and of `NonRetryable`
unfoldable pub wait_for_input_to_string : Text → Text
wait_for_input_to_string reason = wait_prefix ++ reason

unfoldable pub non_retryable_to_string : Text → Text
non_retryable_to_string reason = non_retryable_prefix ++ reason

not-waiting : (r : Text) → parse_waiting_reason (non_retryable_to_string r) ≡ none
unfolding parse_waiting_reason non_retryable_to_string strip_prefix
not-waiting r = refl

-- A failure is read as a wait exactly when it is the print of a `WaitForInput`, with its reason, and
-- as a failure without retries exactly when it is the print of a `NonRetryable`; no print of a
-- `NonRetryable` is read as a wait.
pub parse_waiting_reason_iff :
    (t r : Text)
    → ((parse_waiting_reason t ≡ some r) ↔ (t ≡ wait_for_input_to_string r))
      × ((parse_non_retryable_reason t ≡ some r) ↔ (t ≡ non_retryable_to_string r))
      × (parse_waiting_reason (non_retryable_to_string r) ≡ none)
unfolding parse_waiting_reason parse_non_retryable_reason wait_for_input_to_string
    non_retryable_to_string
parse_waiting_reason_iff t r =
    (strip_prefix_iff wait_prefix t r, strip_prefix_iff non_retryable_prefix t r, not-waiting r)
