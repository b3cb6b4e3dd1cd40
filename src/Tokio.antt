-- ===== src/Tokio.antt =====
-- What the code relies on of tokio: a bounded channel of jobs, a semaphore, and one-shot channels.
-- tokio is not part of the repository, so its values and operations are parameters, with the
-- documented laws that the proofs use.
pub mod Lists
use agentq.Prelude.{ℕ, suc, ◌≤◌, ◌≡◌, ◌≢◌, Bool, List, [], ◌∷◌, ◌++◌, Option, none, some, length}
use agentq.Text.{Text}
use agentq.Job.{Job, Outcome}

-- The answer to a `send` that is polled once; a full channel leaves it waiting.
pub data Sent (C : Type 0) : Type 0 where
  accepted : C → Sent C
  full : Sent C
  closed : Sent C

-- A one-shot receiver: nothing yet, a value, or a sender that was dropped.
pub data Poll : Type 0 where
  unresolved : Poll
  resolved : Outcome → Poll
  dropped : Poll

-- `C` are the bounded channels, `M` the semaphores, and `H` the state of all one-shot channels,
-- which are known by numbers.
pub record Tokio (C M H : Type 0) : Type 0 where
  pub channel : ℕ → C
  pub send : Job → C → Sent C
  -- `Display` of `mpsc::error::SendError`
  pub send_error : Text
  pub recv : C → Option (Job × C)
  pub semaphore : ℕ → M
  pub acquire : M → Option M
  pub release : M → M
  pub no_oneshots : H
  pub oneshot : H → ℕ × H
  pub resolve : ℕ → Outcome → H → H
  pub drop_sender : ℕ → H → H
  pub poll : ℕ → H → Poll
  -- The jobs that were sent and not yet received, in order.
  pub contents : C → List Job
  pub permits : M → ℕ
  pub contents-channel : (n : ℕ) → contents (channel n) ≡ []
  pub contents-send :
      (j : Job) (c c' : C) → send j c ≡ accepted c' → contents c' ≡ contents c ++ j ∷ []
  pub contents-recv : (c c' : C) (j : Job) → recv c ≡ some (j, c') → contents c ≡ j ∷ contents c'
  pub permits-semaphore : (n : ℕ) → permits (semaphore n) ≡ n
  pub permits-acquire : (m m' : M) → acquire m ≡ some m' → permits m ≡ suc (permits m')
  pub permits-release : (m : M) → permits (release m) ≡ suc (permits m)
  -- A fresh channel has no value; the others are as before.
  pub poll-oneshot : (h : H) → poll (oneshot h).0 (oneshot h).1 ≡ unresolved
  pub poll-oneshot_ne : (i : ℕ) (h : H) → i ≢ (oneshot h).0 → poll i (oneshot h).1 ≡ poll i h
  -- A value is kept by the first send, and a channel without a value by the drop of its sender.
  pub poll-resolve :
      (i : ℕ) (o : Outcome) (h : H) → poll i h ≡ unresolved → poll i (resolve i o h) ≡ resolved o
  pub poll-resolve_ne : (i j : ℕ) (o : Outcome) (h : H) → i ≢ j → poll i (resolve j o h) ≡ poll i h
  pub poll-drop_sender :
      (i : ℕ) (h : H) → poll i h ≡ unresolved → poll i (drop_sender i h) ≡ dropped
  -- A channel that has its value, or has lost its sender, stays as it is.
  pub poll-resolve_settled :
      (i : ℕ) (o : Outcome) (h : H) → poll i h ≢ unresolved → poll i (resolve i o h) ≡ poll i h
  pub poll-drop_sender_settled :
      (i : ℕ) (h : H) → poll i h ≢ unresolved → poll i (drop_sender i h) ≡ poll i h
  -- A new channel is none of those that wait.
  pub poll-no_oneshots : (i : ℕ) → poll i no_oneshots ≢ unresolved
  pub oneshot-fresh : (h : H) → poll (oneshot h).0 h ≢ unresolved
  pub poll-drop_sender_ne : (i j : ℕ) (h : H) → i ≢ j → poll i (drop_sender j h) ≡ poll i h
