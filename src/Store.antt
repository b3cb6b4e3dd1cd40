-- ===== src/Store.antt =====
-- src/store.rs: the errors of a store and the `DurableStore` interface.
-- A method takes `&self`, whose interior changes, so it returns the store after the call.
pub mod Spec
use agentq.Prelude.{ℕ, List, ◌++◌, Result}
use agentq.Text.{Text, codes}
use agentq.Event.{Event, ClaimResult}
use agentq.Workflow.{Duration, Execution}

pub data StoreError : Type 0 where
  not_found : StoreError
  backend : Text → StoreError

-- `Display`
unfoldable pub store_error_to_string : StoreError → Text
store_error_to_string not_found = codes "workflow or step not found"
store_error_to_string (backend msg) = codes "store backend error: " ++ msg

abbrev pub StoreM : Type 0 → Type 0 → Type 0
StoreM S A = S → Result StoreError A × S

pub record DurableStore (S : Type 0) : Type 0 where
  pub append_event : Event → StoreM S (Unit {0})
  pub load_events : Text → StoreM S (List Event)
  pub claim_step : Text → ℕ → Text → Duration → StoreM S ClaimResult
  pub renew_lease : Text → ℕ → Text → Duration → StoreM S (Unit {0})
  pub expired_leases : StoreM S (List Execution)
