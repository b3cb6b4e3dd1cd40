-- ===== src/Tokio/Lists.antt =====
-- An instance of the interface: a channel is a list with a capacity, a semaphore a number, and the
-- one-shot channels are a list of their states.
use agentq.Prelude.{
  ℕ, zero, suc, ◌≡◌, ◌≢◌, refl, List, [], ◌∷◌, ◌++◌, Option, none, some, length, ltb, if◌then◌else◌,
  arith, ◌==◌,
}
use agentq.Text.{codes}
use agentq.Job.{Job}
use agentq.Tokio.{Sent, accepted, full, Poll, unresolved, resolved, dropped, Tokio}

pub record ListChannel : Type 0 where
  pub capacity : ℕ
  pub jobs : List Job

unfoldable pub list_send : Job → ListChannel → Sent ListChannel
list_send j c =
    if ltb (length c.jobs) c.capacity then accepted (record c { jobs = c.jobs ++ j ∷ [] }) else full

unfoldable pub first_job : ℕ → List Job → Option (Job × ListChannel)
first_job n [] = none
first_job n (j ∷ js) = some (j, record { capacity = n; jobs = js })

unfoldable pub list_recv : ListChannel → Option (Job × ListChannel)
unfolding first_job
list_recv c = first_job c.capacity c.jobs

unfoldable pub list_acquire : ℕ → Option ℕ
list_acquire zero = none
list_acquire (suc n) = some n

-- A number for the next channel, and the states of those that were made.
pub record Slots : Type 0 where
  pub next : ℕ
  pub state : ℕ → Poll

unfoldable pub update_state : ℕ → Poll → Slots → Slots
update_state i p h = record h { state = λ j. if j == i then p else h.state j }

-- Only an unresolved channel changes.
unfoldable pub settle : ℕ → Poll → Slots → Slots
unfolding update_state
settle i p h = elim (h.state i) [ unresolved ↦ update_state i p h | _ ↦ h ]

unfoldable pub list_oneshot : Slots → ℕ × Slots
unfolding update_state
list_oneshot h = (h.next, update_state h.next unresolved (record h { next = suc h.next }))

pub contents-list_recv :
    (n : ℕ) (js : List Job) (c' : ListChannel) (j : Job)
    → first_job n js ≡ some (j, c')
    → js ≡ j ∷ c'.jobs
unfolding first_job
contents-list_recv n [] c' j h = cc
contents-list_recv n (x ∷ js) c' j h = ground arith

pub permits-list_acquire : (m m' : ℕ) → list_acquire m ≡ some m' → m ≡ suc m'
unfolding list_acquire
permits-list_acquire zero m' h = cc
permits-list_acquire (suc n) m' h = ground arith

pub contents-list_send :
    (j : Job) (c c' : ListChannel) → list_send j c ≡ accepted c' → c'.jobs ≡ c.jobs ++ j ∷ []
unfolding list_send
contents-list_send j c c' h = ground arith

-- A number that was not given out is that of no channel that waits.
unfoldable pub list_poll : ℕ → Slots → Poll
list_poll i h = if ltb i h.next then h.state i else dropped

pub list_poll-oneshot : (h : Slots) → list_poll (list_oneshot h).0 (list_oneshot h).1 ≡ unresolved
unfolding list_oneshot list_poll
list_poll-oneshot h = ground arith

pub list_poll-oneshot_ne :
    (i : ℕ) (h : Slots) → i ≢ (list_oneshot h).0 → list_poll i (list_oneshot h).1 ≡ list_poll i h
unfolding list_oneshot list_poll
list_poll-oneshot_ne i h ne = ground arith

pub list_poll-settle :
    (i : ℕ) (p : Poll) (h : Slots) → list_poll i h ≡ unresolved → list_poll i (settle i p h) ≡ p
unfolding settle list_poll
list_poll-settle i p h e = ground arith

pub list_poll-settle_ne :
    (i j : ℕ) (p : Poll) (h : Slots) → i ≢ j → list_poll i (settle j p h) ≡ list_poll i h
unfolding settle list_poll
list_poll-settle_ne i j p h ne = ground arith

pub list_poll-settled :
    (i : ℕ) (p : Poll) (h : Slots)
    → list_poll i h ≢ unresolved
    → list_poll i (settle i p h) ≡ list_poll i h
unfolding settle list_poll
list_poll-settled i p h ne = ground arith

pub list_poll-none :
    (i : ℕ) → list_poll i (record { next = 0; state = λ i. unresolved }) ≢ unresolved
unfolding list_poll
list_poll-none i e = ground arith

pub list_oneshot-fresh : (h : Slots) → list_poll (list_oneshot h).0 h ≢ unresolved
unfolding list_oneshot list_poll
list_oneshot-fresh h e = ground arith

unfoldable pub list_tokio : Tokio ListChannel ℕ Slots
unfolding list_send list_recv list_acquire list_oneshot settle list_poll
list_tokio = record {
  channel = λ n. record { capacity = n; jobs = [] };
  send = list_send;
  send_error = codes "channel closed";
  recv = list_recv;
  semaphore = λ n. n;
  acquire = list_acquire;
  release = λ n. suc n;
  no_oneshots = record { next = 0; state = λ i. unresolved };
  oneshot = list_oneshot;
  resolve = λ i o. settle i (resolved o);
  drop_sender = λ i. settle i dropped;
  poll = list_poll;
  contents = λ c. c.jobs;
  permits = λ n. n;
  contents-channel = λ n. refl;
  contents-send = contents-list_send;
  contents-recv = λ c c' j. contents-list_recv c.capacity c.jobs c' j;
  permits-semaphore = λ n. refl;
  permits-acquire = permits-list_acquire;
  permits-release = λ m. refl;
  poll-oneshot = list_poll-oneshot;
  poll-oneshot_ne = list_poll-oneshot_ne;
  poll-resolve = λ i o. list_poll-settle i (resolved o);
  poll-resolve_ne = λ i j o. list_poll-settle_ne i j (resolved o);
  poll-drop_sender = λ i. list_poll-settle i dropped;
  poll-resolve_settled = λ i o. list_poll-settled i (resolved o);
  poll-drop_sender_settled = λ i. list_poll-settled i dropped;
  poll-no_oneshots = list_poll-none;
  oneshot-fresh = list_oneshot-fresh;
  poll-drop_sender_ne = λ i j. list_poll-settle_ne i j dropped;
}
