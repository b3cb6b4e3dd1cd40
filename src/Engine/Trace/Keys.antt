-- ===== src/Engine/Trace/Keys.antt =====
-- src/engine.rs: the keys of the jobs that a run pushes.
use agentq.Prelude.{
  ℕ, suc, ◌^◌, ◌<◌, ◌≤◌, ◌≡◌, ◌≢◌, refl, sym, ◌∙◌, List, [], ◌∷◌, ◌++◌, All, All-append, All-weaker,
  arith,
}
use agentq.Text.{Text}
use agentq.Job.{Job, Func}
use agentq.Workflow.{StepDef}
use agentq.Engine.Key.{job_key, job_key-injective}
use agentq.Engine.State.{WorkflowEngine}
use agentq.Engine.Trace.{job_of}

-- No two jobs of the list have the same key.
abbrev pub KeysDiffer : List Job → Type 0
KeysDiffer [] = Unit
KeysDiffer (job ∷ jobs) = All (λ other. other.key ≢ job.key) jobs × KeysDiffer jobs

KeysDiffer-append :
    (xs ys : List Job)
    → KeysDiffer xs
    → KeysDiffer ys
    → All (λ x. All (λ y. y.key ≢ x.key) ys) xs
    → KeysDiffer (xs ++ ys)
KeysDiffer-append [] ys hx hy h = hy
KeysDiffer-append (x ∷ xs) ys hx hy h =
    (All-append _ xs ys hx.0 h.0, KeysDiffer-append xs ys hx.1 hy h.1)

-- The policy's number of attempts is a `u32`.
abbrev pub Fits : StepDef → Type 0
Fits step = step.retry_policy.max_attempts < 2 ^ 32

module _ (w : Text) where
  -- The key of an attempt of step `i`, from `a` on.
  abbrev OfStep : ℕ → ℕ → Job → Type 0
  OfStep i a job = (b : ℕ) × (a ≤ b) × (job.key ≡ job_key w i b)

  -- The key of an attempt of a step from `i` on.
  abbrev pub OfStepsFrom : ℕ → Job → Type 0
  OfStepsFrom i job = (j : ℕ) × (b : ℕ) × (i ≤ j) × (job.key ≡ job_key w j b)

  OfStep-later : (i a : ℕ) (job : Job) → OfStep i (suc a) job → OfStep i a job
  OfStep-later i a job (b, le, e) = (b, omega arith, e)

  OfStep-differs :
      (i a : ℕ) (first job : Job)
      → first.key ≡ job_key w i a
      → OfStep i (suc a) job
      → job.key ≢ first.key
  OfStep-differs i a first job e (b, le, e') same =
      let (_, _, ab) = job_key-injective w w i i b a (sym e' ∙ same ∙ e) in omega (arith, ab)

  OfStep-OfStepsFrom : (i : ℕ) (job : Job) → OfStep i 0 job → OfStepsFrom i job
  OfStep-OfStepsFrom i job (b, le, e) = (i, b, omega arith, e)

  OfStepsFrom-later : (i : ℕ) (job : Job) → OfStepsFrom (suc i) job → OfStepsFrom i job
  OfStepsFrom-later i job (j, b, le, e) = (j, b, omega arith, e)

  OfStepsFrom-differs :
      (i : ℕ) (first job : Job) → OfStep i 0 first → OfStepsFrom (suc i) job → job.key ≢ first.key
  OfStepsFrom-differs i first job (a, _, e) (j, b, le, e') same =
      let (_, ij, _) = job_key-injective w w j i b a (sym e' ∙ same ∙ e) in omega (arith, ij)

  -- The jobs of a step's trace, from attempt `a` on.
  abbrev pub StepJobs : ℕ → ℕ → List Job → Type 0
  StepJobs i a jobs = All (OfStep i a) jobs × KeysDiffer jobs

  -- The jobs of a drive, from step `i` on.
  abbrev pub DriveJobs : ℕ → List Job → Type 0
  DriveJobs i jobs = All (OfStepsFrom i) jobs × KeysDiffer jobs

  pub DriveJobs-append :
      (i : ℕ) (jobs rest : List Job)
      → StepJobs i 0 jobs
      → DriveJobs (suc i) rest
      → DriveJobs i (jobs ++ rest)
  DriveJobs-append i jobs rest h g = (
    All-append _ jobs rest (All-weaker (OfStep-OfStepsFrom i) jobs h.0)
        (All-weaker (OfStepsFrom-later i) rest g.0),
    KeysDiffer-append jobs rest h.1 g.1 (
        All-weaker (λ first own. All-weaker (λ job. OfStepsFrom-differs i first job own) rest g.0)
          jobs h.0),
  )

module _ (engine : WorkflowEngine) (w : Text) where
  -- The job of an attempt in front of those of the next ones.
  pub StepJobs-next :
      (i : ℕ) (body : Func) (a : ℕ) (jobs : List Job)
      → StepJobs w i (suc a) jobs
      → StepJobs w i a (job_of engine w i body a ∷ jobs)
  unfolding job_of
  StepJobs-next i body a jobs h = (
    ((a, omega arith, refl), All-weaker (OfStep-later w i a) jobs h.0),
    (All-weaker (λ job. OfStep-differs w i a (job_of engine w i body a) job refl) jobs h.0, h.1),
  )
