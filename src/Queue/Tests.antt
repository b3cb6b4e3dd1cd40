-- ===== src/Queue/Tests.antt =====
-- src/queue.rs, src/state.rs and src/worker.rs: the theorems on the queue at a concrete run, on
-- the list instance of the channels.
use agentq.Prelude.{
  ◌≤◌, ℕ, ◌+◌, ◌≡◌, ◌≢◌, refl, true, [], ◌∷◌, ◌++◌, none, some, ok, err, arith, All,
}
use agentq.Text.{Text, codes, text_eq}
use agentq.Job.{job_lost, lost, Job, State, failed, Outcome, returned, low, medium, high}
use agentq.Tokio.{resolved, unresolved}
use agentq.Tokio.Lists.{ListChannel, Slots, list_tokio}
use agentq.Queue.{Queue, Task, QueueBuilder, builder, start, lane_at, recorded, or_default}
use agentq.Queue.Steps.{push_cancel, push_claim, task_notify, claimed, take_at}
use agentq.Queue.Run.{
  Step, claim, send, cancel, recv, spawn, begin, finish, notify, take_step, Reachable, started,
  stepped,
}
use agentq.Queue.Invariant.{OneHolder}
use agentq.Queue.Invariant.Reached.{Reachable-OneHolder}
use agentq.Queue.Completed.{take_step-Stored}
use agentq.Queue.Stale.{stale_outcome}
use agentq.Queue.Steps.Counts.{waiting_jobs, running_jobs}
use agentq.Queue.Attended.{awaited, recorded_jobs, Reachable-awaited}
use agentq.Queue.Handles.{Reachable-unresolved}
use agentq.Queue.Listed.{listed}
use agentq.Queue.Wait.{
  awaiting, ended, state, poll_wait, poll_wait-task_notify, poll_wait-push_cancel,
}
use agentq.Queue.Permits.{lane_tasks, Reachable-permits}

abbrev State0 : Type 0
State0 = Queue ListChannel ℕ Slots

abbrev job : Job
job = record { key = codes "k"; priority = low; func = 0 }

-- The queue behind a step, or the same queue where the step cannot be taken.
abbrev behind : Step → State0 → State0
behind s q = elim (take_step list_tokio s q) [ none ↦ q | some q' ↦ q' ]

abbrev q1 : State0
q1 = behind (claim job) (start list_tokio builder)

abbrev q2 : State0
q2 = behind (send 0) q1

abbrev q3 : State0
q3 = behind (recv low) q2

abbrev q4 : State0
q4 = behind (spawn low) q3

abbrev q5 : State0
q5 = behind (begin 0) q4

abbrev q_failed : State0
q_failed = behind (finish 0 (returned (err (codes "boom")))) q5

abbrev q_completed : State0
q_completed = behind (finish 0 (returned (ok (codes "done")))) q5

q5-Reachable : Reachable list_tokio builder q5
unfolding take_step agentq.Queue.Steps.push_send take_at push_claim start list_tokio lane_at builder
    agentq.Queue.Steps.worker_recv agentq.Queue.set_lane agentq.Queue.Steps.worker_spawn
    agentq.Queue.Steps.task_start
q5-Reachable =
    stepped (begin 0)
      (stepped (spawn low)
        (stepped (recv low) (stepped (send 0) (stepped (claim job) started refl) refl) refl) refl)
      refl

q_completed-Reachable : Reachable list_tokio builder q_completed
unfolding take_step agentq.Queue.Steps.task_record take_at agentq.Queue.Steps.task_start
    agentq.Queue.Steps.worker_spawn lane_at agentq.Queue.Steps.worker_recv
    agentq.Queue.Steps.push_send push_claim start list_tokio builder agentq.Queue.set_lane
q_completed-Reachable = stepped (finish 0 (returned (ok (codes "done")))) q5-Reachable refl

Reachable-OneHolder_example : OneHolder list_tokio q5 (codes "k")
Reachable-OneHolder_example = Reachable-OneHolder list_tokio builder (codes "k") q5-Reachable

notify_taken : take_step list_tokio (notify 0) q_completed ≡ some (behind (notify 0) q_completed)
unfolding take_step task_notify take_at agentq.Queue.Steps.task_record agentq.Queue.Steps.task_start
    agentq.Queue.Steps.worker_spawn lane_at agentq.Queue.Steps.worker_recv
    agentq.Queue.Steps.push_send push_claim start list_tokio builder agentq.Queue.set_lane
notify_taken = refl

completed_stored : q_completed.statemap (codes "k") ≡ some (State.completed (codes "done"))
unfolding take_step agentq.Queue.Steps.task_record take_at agentq.Queue.Steps.task_start
    agentq.Queue.Steps.worker_spawn lane_at agentq.Queue.Steps.worker_recv
    agentq.Queue.Steps.push_send push_claim start list_tokio builder agentq.Queue.set_lane
    agentq.Queue.insert text_eq agentq.Job.state_from agentq.Job.outcome_of
completed_stored = refl

take_step-Stored_example :
    (behind (notify 0) q_completed).statemap (codes "k") ≡ some (State.completed (codes "done"))
take_step-Stored_example =
    take_step-Stored list_tokio (codes "k") (codes "done") builder (notify 0) q_completed
      (behind (notify 0) q_completed) q_completed-Reachable notify_taken completed_stored

abbrev failed_task : Task
failed_task = record { job = job; lane = low; phase = recorded (Outcome.failed (codes "boom")) }

failed_taken : take_at 0 q_failed.tasks ≡ some (failed_task, [])
unfolding take_step take_at agentq.Queue.Steps.task_record agentq.Queue.Steps.task_start
    agentq.Queue.Steps.worker_spawn lane_at agentq.Queue.Steps.worker_recv
    agentq.Queue.Steps.push_send push_claim start list_tokio builder agentq.Queue.set_lane
    agentq.Job.outcome_of
failed_taken = refl

failed_stored : q_failed.statemap (codes "k") ≡ some (State.failed (codes "boom"))
unfolding take_step agentq.Queue.Steps.task_record take_at agentq.Queue.Steps.task_start
    agentq.Queue.Steps.worker_spawn lane_at agentq.Queue.Steps.worker_recv
    agentq.Queue.Steps.push_send push_claim start list_tokio builder agentq.Queue.set_lane
    agentq.Queue.insert text_eq agentq.Job.state_from agentq.Job.outcome_of
failed_stored = refl

waiters_old :
    All
      (λ s. s ≢ (list_tokio.oneshot q_failed.oneshots).0)
      (or_default (q_failed.waiters (codes "k")))
unfolding take_step or_default agentq.Queue.Steps.task_record take_at agentq.Queue.Steps.task_start
    agentq.Queue.Steps.worker_spawn lane_at agentq.Queue.Steps.worker_recv
    agentq.Queue.Steps.push_send push_claim start list_tokio builder agentq.Queue.set_lane
    agentq.Queue.add_waiter text_eq
waiters_old = (omega arith, tt)

stale_outcome_example :
    (id : ℕ) × (q' : State0) × ((push_claim list_tokio job q_failed).0 ≡ claimed id)
    × (task_notify list_tokio 0 (push_claim list_tokio job q_failed).1 ≡ some q')
    × (list_tokio.poll id q'.oneshots ≡ resolved (Outcome.failed (codes "boom")))
    × (q'.waiters (codes "k") ≡ none)
    × (q'.claims ≡ q_failed.claims ++ record { job = job; receiver = id } ∷ [])
stale_outcome_example =
    stale_outcome list_tokio 0 q_failed failed_task [] (codes "boom") job failed_taken refl refl
      failed_stored waiters_old

Reachable-permits_example :
    list_tokio.permits (lane_at low q5.lanes).semaphore + lane_tasks low q5.tasks
    ≡ (lane_at low builder).permits
Reachable-permits_example = Reachable-permits list_tokio low builder q5-Reachable

Reachable-awaited_example :
    awaited (q5.waiters (codes "k"))
    ≤ waiting_jobs list_tokio (codes "k") q5
      + running_jobs list_tokio (codes "k") q5
      + recorded_jobs (codes "k") q5.tasks
Reachable-awaited_example = Reachable-awaited list_tokio builder (codes "k") q5-Reachable

first_unresolved : list_tokio.poll 0 q5.oneshots ≡ unresolved
unfolding list_tokio take_step agentq.Queue.Steps.task_start take_at agentq.Queue.Steps.worker_spawn
    lane_at agentq.Queue.Steps.worker_recv agentq.Queue.Steps.push_send push_claim start builder
    agentq.Queue.set_lane
first_unresolved = refl

Reachable-unresolved_example :
    (key : Text) × (listed 0 (or_default (q5.waiters key)) ≡ true)
    × (1
        ≤ waiting_jobs list_tokio key q5
          + running_jobs list_tokio key q5
          + recorded_jobs key q5.tasks)
Reachable-unresolved_example =
    Reachable-unresolved list_tokio builder 0 q5-Reachable first_unresolved

abbrev completed_task : Task
completed_task = record {
  job = job;
  lane = low;
  phase = recorded (Outcome.completed (codes "done"));
}

completed_taken : take_at 0 q_completed.tasks ≡ some (completed_task, [])
unfolding take_at take_step agentq.Queue.Steps.task_record agentq.Queue.Steps.task_start
    agentq.Queue.Steps.worker_spawn lane_at agentq.Queue.Steps.worker_recv
    agentq.Queue.Steps.push_send push_claim start list_tokio builder agentq.Queue.set_lane
    agentq.Job.outcome_of
completed_taken = refl

completed_listed : listed 0 (or_default (q_completed.waiters (codes "k"))) ≡ true
unfolding listed or_default take_step agentq.Queue.Steps.task_record take_at
    agentq.Queue.Steps.task_start agentq.Queue.Steps.worker_spawn lane_at
    agentq.Queue.Steps.worker_recv agentq.Queue.Steps.push_send push_claim start list_tokio builder
    agentq.Queue.set_lane agentq.Queue.add_waiter text_eq
completed_listed = refl

completed_unresolved : list_tokio.poll 0 q_completed.oneshots ≡ unresolved
unfolding list_tokio take_step agentq.Queue.Steps.task_record take_at agentq.Queue.Steps.task_start
    agentq.Queue.Steps.worker_spawn lane_at agentq.Queue.Steps.worker_recv
    agentq.Queue.Steps.push_send push_claim start builder agentq.Queue.set_lane
completed_unresolved = refl

completed_notified : task_notify list_tokio 0 q_completed ≡ some (behind (notify 0) q_completed)
unfolding task_notify take_at take_step agentq.Queue.Steps.task_record agentq.Queue.Steps.task_start
    agentq.Queue.Steps.worker_spawn lane_at agentq.Queue.Steps.worker_recv
    agentq.Queue.Steps.push_send push_claim start list_tokio builder agentq.Queue.set_lane
completed_notified = refl

poll_wait-task_notify_example :
    poll_wait list_tokio (awaiting 0) (behind (notify 0) q_completed) ≡ ended (ok (codes "done"))
poll_wait-task_notify_example =
    poll_wait-task_notify list_tokio 0 0 completed_task [] (Outcome.completed (codes "done"))
      q_completed (behind (notify 0) q_completed) completed_taken refl completed_listed
      completed_unresolved completed_notified

-- A second push of the key, which waits for the job of the first.
abbrev q_two : State0
q_two = behind (claim job) q1

abbrev q_dropped : State0
q_dropped = behind (cancel 0) q_two

two_taken : take_at 0 q_two.claims ≡ some (record { job = job; receiver = 0 }, [])
unfolding take_at take_step push_claim start agentq.Queue.insert text_eq list_tokio
two_taken = refl

two_listed : listed 1 (or_default (q_two.waiters (codes "k"))) ≡ true
unfolding listed or_default take_step push_claim start agentq.Queue.insert text_eq
    agentq.Queue.add_waiter list_tokio
two_listed = refl

two_unresolved : list_tokio.poll 1 q_two.oneshots ≡ unresolved
unfolding list_tokio take_step push_claim start agentq.Queue.insert text_eq
two_unresolved = refl

two_cancelled : push_cancel list_tokio 0 q_two ≡ some q_dropped
unfolding push_cancel take_at take_step push_claim start agentq.Queue.insert text_eq
two_cancelled = refl

poll_wait-push_cancel_example :
    (poll_wait list_tokio (awaiting 1) q_dropped ≡ ended (err (lost job_lost)))
    × (state list_tokio (codes "k") q_dropped ≡ none)
poll_wait-push_cancel_example =
    poll_wait-push_cancel list_tokio 0 1 (record { job = job; receiver = 0 }) [] q_two q_dropped
      two_taken two_listed two_unresolved two_cancelled
