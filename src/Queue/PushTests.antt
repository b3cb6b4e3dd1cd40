-- ===== src/Queue/PushTests.antt =====
-- src/queue.rs: a push of a key that is new, at a concrete run.
use agentq.Prelude.{ℕ, ◌≡◌, ◌≢◌, refl, none, All}
use agentq.Text.{codes}
use agentq.Job.{Job, low}
use agentq.Tokio.Lists.{ListChannel, Slots, list_tokio}
use agentq.Queue.{Queue, builder, start}
use agentq.Queue.Steps.{push_claim, claimed}
use agentq.Queue.Run.{claim, take_step, Reachable, started, stepped}
use agentq.Queue.Fresh.{jobs_of, given, Reachable-claimed}

abbrev job : Job
job = record { key = codes "k"; priority = low; func = 0 }

abbrev other : Job
other = record { key = codes "wf:0:0"; priority = low; func = 1 }

abbrev q1 : Queue ListChannel ℕ Slots
q1 = (push_claim list_tokio job (start list_tokio builder)).1

abbrev q1-Reachable : Reachable list_tokio builder q1
q1-Reachable = stepped {q' = q1} (claim job) started (unfold take_step in refl)

q1-apart : All (λ earlier. earlier.key ≢ other.key) (jobs_of q1-Reachable)
unfolding jobs_of given
q1-apart = (λ e. cc, tt)

Reachable-claimed_example :
    (q1.statemap other.key ≡ none)
    × ((push_claim list_tokio other q1).0 ≡ claimed (list_tokio.oneshot q1.oneshots).0)
Reachable-claimed_example = Reachable-claimed list_tokio builder other q1-Reachable q1-apart
