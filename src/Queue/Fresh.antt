-- ===== src/Queue/Fresh.antt =====
-- src/queue.rs: what the queue answers for a key that it was never given.
use agentq.Prelude.{◌≡◌, ◌≢◌, refl, subst, List, [], ◌∷◌, ◌++◌, Option, none, some, All, arith}
use agentq.Text.{Text, text_eq_iff}
use agentq.Job.{Job, State}
use agentq.Tokio.{Tokio}
use agentq.Queue.{Queue, QueueBuilder, start, insert}
use agentq.Queue.Steps.{push_claim, claim_by, register, claimed}
use agentq.Queue.Steps.Counts.{is_pending, is_processing}
use agentq.Queue.Run.{
  Step, claim, send, cancel, recv, spawn, begin, finish, notify, Reachable, started, stepped,
}
use agentq.Queue.Still.{take_step-Still}

unfoldable pub given : Step → List Job
given (claim job) = job ∷ []
given _ = []

-- The jobs that were pushed on the way to a queue, latest first.
unfoldable pub jobs_of :
    {C M H : Type 0} {k : Tokio C M H} {b : QueueBuilder} {q : Queue C M H}
    → Reachable k b q
    → List Job
unfolding given
jobs_of started = []
jobs_of (stepped s r e) = given s ++ jobs_of r

module _ {C M H : Type 0} (k : Tokio C M H) where
  -- A push of another key leaves the state of this one alone.
  push_claim-apart :
      (key : Text) (job : Job) (q : Queue C M H) (st : Option State)
      → job.key ≢ key
      → q.statemap key ≡ none
      → (claim_by k st job q).1.statemap key ≡ none
  unfolding claim_by insert register
  push_claim-apart key job q none apart e = ground (arith, text_eq_iff job.key key)
  push_claim-apart key job q (some State.pending) apart e = e
  push_claim-apart key job q (some State.processing) apart e = e
  push_claim-apart key job q (some (State.completed o)) apart e = e
  push_claim-apart key job q (some (State.failed o)) apart e =
      ground (arith, text_eq_iff job.key key)

  given-apart :
      (P : Job → Type 0) (job : Job) (s : Step) (jobs : List Job)
      → s ≡ claim job
      → All P (given s ++ jobs)
      → P job
  unfolding given
  given-apart P job s jobs e h = (subst (λ x. All P (given x ++ jobs)) e h).0

  given-rest :
      (P : Job → Type 0) (s : Step) (jobs : List Job) → All P (given s ++ jobs) → All P jobs
  unfolding given
  given-rest P (claim job) jobs h = h.1
  given-rest P (send n) jobs h = h
  given-rest P (cancel n) jobs h = h
  given-rest P (recv p) jobs h = h
  given-rest P (spawn p) jobs h = h
  given-rest P (begin n) jobs h = h
  given-rest P (finish n end) jobs h = h
  given-rest P (notify n) jobs h = h

  Reachable-unknown :
      (b : QueueBuilder) (key : Text) {q : Queue C M H} (r : Reachable k b q)
      → All (λ other. other.key ≢ key) (jobs_of r)
      → q.statemap key ≡ none
  unfolding jobs_of start push_claim is_pending is_processing
  Reachable-unknown b key started h = refl
  Reachable-unknown b key (stepped {q = q} {q' = q'} s r e) h =
      let before = Reachable-unknown b key r (given-rest _ s (jobs_of r) h) in
      take_step-Still k key none refl refl b s q q' r e
        (λ job same.
          push_claim-apart key job q (q.statemap job.key)
            (given-apart (λ other. other.key ≢ key) job s (jobs_of r) same h) before)
        before

  -- However the pushes, the worker loops and the tasks have interleaved, the queue holds no state for
  -- a key that no pushed job had, and a push of a job with it is not answered from the cache or with
  -- a job in flight: it gets a claim of its own, with a new receiver.
  pub Reachable-claimed :
      (b : QueueBuilder) (job : Job) {q : Queue C M H} (r : Reachable k b q)
      → All (λ other. other.key ≢ job.key) (jobs_of r)
      → (q.statemap job.key ≡ none) × ((push_claim k job q).0 ≡ claimed (k.oneshot q.oneshots).0)
  unfolding push_claim claim_by register
  Reachable-claimed b job r h = let e = Reachable-unknown b job.key r h in (e, rw e refl)
