-- ===== src/Queue.antt =====
-- src/queue.rs, src/state.rs and src/worker.rs: the queue as a state and its atomic steps.
-- A step is what the code does under its locks without waiting; the steps of the pushes, the
-- worker loops and the tasks of the jobs interleave in any order. A step that cannot be taken is
-- `none`. A hash map is a function, which the code only looks up and updates.
pub mod Steps
pub mod Run
pub mod Invariant
pub mod Still
pub mod Completed
pub mod Fresh
pub mod Stale
pub mod Listed
pub mod Handles
pub mod Wait
pub mod Permits
pub mod Attended
mod Tests
mod PushTests
use agentq.Prelude.{
  ℕ, zero, suc, Bool, true, false, List, [], ◌∷◌, ◌++◌, Option, none, some, if◌then◌else◌,
}
use agentq.Text.{Text, text_eq}
use agentq.Job.{Job, State, Priority, low, medium, high, Outcome}
use agentq.Tokio.{Tokio}

abbrev pub Map : Type 0 → Type 0
Map V = Text → Option V

-- `map.insert(k, v)`
unfoldable pub insert : {V : Type 0} → Text → V → Map V → Map V
insert k v m j = if text_eq k j then some v else m j

-- `map.remove(&k)`
unfoldable pub remove : {V : Type 0} → Text → Map V → Map V
remove k m j = if text_eq k j then none else m j

unfoldable pub or_default : {A : Type 0} → Option (List A) → List A
or_default none = []
or_default (some xs) = xs

-- `waiters.entry(k).or_default().push(sender)`
unfoldable pub add_waiter : Text → ℕ → Map (List ℕ) → Map (List ℕ)
unfolding insert or_default
add_waiter k sender m = insert k (or_default (m k) ++ sender ∷ []) m

pub record LaneConfig : Type 0 where
  pub capacity : ℕ
  pub permits : ℕ

abbrev pub default_lane : LaneConfig
default_lane = record { capacity = 100; permits = 5 }

-- `[LaneConfig; Priority::COUNT]`, indexed by `priority as usize`
pub record Lanes (A : Type 0) : Type 0 where
  pub low : A
  pub medium : A
  pub high : A

unfoldable pub lane_at : {A : Type 0} → Priority → Lanes A → A
lane_at Priority.low ls = ls.low
lane_at Priority.medium ls = ls.medium
lane_at Priority.high ls = ls.high

unfoldable pub set_lane : {A : Type 0} → Priority → A → Lanes A → Lanes A
set_lane Priority.low a ls = record ls { low = a }
set_lane Priority.medium a ls = record ls { medium = a }
set_lane Priority.high a ls = record ls { high = a }

-- `QueueBuilder::default()` and `QueueBuilder::lane`
abbrev pub QueueBuilder : Type 0
QueueBuilder = Lanes LaneConfig

unfoldable pub builder : QueueBuilder
builder = record { low = default_lane; medium = default_lane; high = default_lane }

unfoldable pub configure_lane : Priority → LaneConfig → QueueBuilder → QueueBuilder
unfolding set_lane
configure_lane priority config b = set_lane priority config b

-- A lane's channel and semaphore, and the job that its worker has received and not yet spawned.
pub record Lane (C M : Type 0) : Type 0 where
  pub channel : C
  pub semaphore : M
  pub held : Option Job

-- A push between its claim and the end of its `send`: the armed `ClaimGuard`.
pub record Claim : Type 0 where
  pub job : Job
  pub receiver : ℕ

-- A spawned task: before it has written `Processing`, with its `JobGuard`, and between the two
-- locks of the guard's drop.
pub data Phase : Type 0 where
  spawned : Phase
  running : Phase
  recorded : Outcome → Phase

pub record Task : Type 0 where
  pub job : Job
  pub lane : Priority
  pub phase : Phase

pub record Queue (C M H : Type 0) : Type 0 where
  pub statemap : Map State
  pub waiters : Map (List ℕ)
  pub lanes : Lanes (Lane C M)
  pub claims : List Claim
  pub tasks : List Task
  pub oneshots : H

module _ {C M H : Type 0} (k : Tokio C M H) where
  unfoldable pub open_lane : LaneConfig → Lane C M
  open_lane c = record {
    channel = k.channel c.capacity;
    semaphore = k.semaphore c.permits;
    held = none;
  }

  -- `QueueBuilder::start`
  unfoldable pub start : QueueBuilder → Queue C M H
  unfolding open_lane
  start b = record {
    statemap = λ key. none;
    waiters = λ key. none;
    lanes = record { low = open_lane b.low; medium = open_lane b.medium; high = open_lane b.high };
    claims = [];
    tasks = [];
    oneshots = k.no_oneshots;
  }
