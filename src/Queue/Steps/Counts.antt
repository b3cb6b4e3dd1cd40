-- ===== src/Queue/Steps/Counts.antt =====
-- How often a key stands among the jobs of a queue, and how a step moves it.
use agentq.Prelude.{
  ℕ, zero, suc, ◌+◌, ◌≡◌, List, [], ◌∷◌, ◌++◌, Option, none, some, if◌then◌else◌, arith,
  Option-cases, inl, inr,
}
use agentq.Text.{Text, text_eq}
use agentq.Job.{Job, State, Priority}
use agentq.Tokio.{Tokio}
use agentq.Queue.{Queue, Lane, Lanes, Claim, Task, Phase, spawned, running, lane_at, set_lane}
use agentq.Queue.Steps.{take_at}

-- The sum of a weight over a list.
unfoldable pub total : {A : Type 0} → (A → ℕ) → List A → ℕ
total f [] = 0
total f (x ∷ xs) = f x + total f xs

module _ {A : Type 0} (f : A → ℕ) where
  pub total-append : (xs ys : List A) → total f (xs ++ ys) ≡ total f xs + total f ys
  unfolding total
  total-append [] ys = omega arith
  total-append (x ∷ xs) ys = omega (arith, total-append xs ys)

  pub total-snoc : (xs : List A) (x : A) → total f (xs ++ x ∷ []) ≡ total f xs + f x
  unfolding total
  total-snoc xs x = omega (arith, total-append xs (x ∷ []))

  pub total-take_at :
      (n : ℕ) (xs : List A) (x : A) (ys : List A)
      → take_at n xs ≡ some (x, ys)
      → total f xs ≡ f x + total f ys
  unfolding take_at total
  total-take_at n [] x ys h = cc
  total-take_at zero (z ∷ xs) x ys h = ground arith
  total-take_at (suc n) (z ∷ xs) x ys h = elim (Option-cases (take_at n xs)) [
    | inl e ↦ ground arith
    | inr ((y, zs), e) ↦ let tail = total-take_at n xs y zs e in ground arith
  ]

-- 1 for a job with the key.
unfoldable pub hit : Text → Job → ℕ
hit key j = if text_eq j.key key then 1 else 0

unfoldable pub hit_held : Text → Option Job → ℕ
hit_held key none = 0
hit_held key (some j) = hit key j

unfoldable pub hit_spawned : Text → Phase → Job → ℕ
hit_spawned key spawned j = hit key j
hit_spawned key _ j = 0

unfoldable pub hit_running : Text → Phase → Job → ℕ
hit_running key running j = hit key j
hit_running key _ j = 0

-- The states of a key that wait, and that run.
unfoldable pub is_pending : Option State → ℕ
is_pending (some State.pending) = 1
is_pending _ = 0

unfoldable pub is_processing : Option State → ℕ
is_processing (some State.processing) = 1
is_processing _ = 0

module _ {C M H : Type 0} (k : Tokio C M H) (key : Text) where
  unfoldable pub lane_jobs : Lane C M → ℕ
  lane_jobs l = total (hit key) (k.contents l.channel) + hit_held key l.held

  unfoldable pub lanes_jobs : Lanes (Lane C M) → ℕ
  unfolding lane_jobs
  lanes_jobs ls = lane_jobs ls.low + lane_jobs ls.medium + lane_jobs ls.high

  -- The jobs with the key that no task has started: claimed, sent, received or spawned.
  unfoldable pub waiting_jobs : Queue C M H → ℕ
  waiting_jobs q =
      total (λ (c : Claim). hit key c.job) q.claims
      + lanes_jobs q.lanes
      + total (λ (t : Task). hit_spawned key t.phase t.job) q.tasks

  -- The tasks with the key whose job runs.
  unfoldable pub running_jobs : Queue C M H → ℕ
  running_jobs q = total (λ (t : Task). hit_running key t.phase t.job) q.tasks

  pub lanes_jobs-set_lane :
      (p : Priority) (l : Lane C M) (ls : Lanes (Lane C M))
      → lanes_jobs (set_lane p l ls) + lane_jobs (lane_at p ls) ≡ lanes_jobs ls + lane_jobs l
  unfolding lanes_jobs set_lane lane_at
  lanes_jobs-set_lane Priority.low l ls = omega arith
  lanes_jobs-set_lane Priority.medium l ls = omega arith
  lanes_jobs-set_lane Priority.high l ls = omega arith
