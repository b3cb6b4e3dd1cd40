-- ===== src/Queue/Listed.antt =====
-- src/queue.rs, src/state.rs: the receivers among the waiters, and what settles them.
use agentq.Prelude.{
  ℕ, ◌≡◌, ◌≢◌, refl, sym, subst, ◌∙◌, ap, Bool, true, false, ◌==◌, List, [], ◌∷◌, Option, none,
  some, any, any-append, arith, Bool-cases, inl, inr, ◌⊎◌, ==_iff,
}
use agentq.Text.{text_eq→eq, Text, text_eq, text_eq_refl}
use agentq.Job.{Job, State, Outcome}
use agentq.Tokio.{Tokio, Poll, unresolved, resolved, dropped}
use agentq.Queue.{Queue, Map, insert, remove, add_waiter, or_default}
use agentq.Queue.Steps.{register, claim_by, drop_senders, forget_waiters, resolve_all}

-- The receiver is in the list.
unfoldable pub listed : ℕ → List ℕ → Bool
listed i ss = any (λ s. s == i) ss

Poll-cases : (p : Poll) → (p ≡ unresolved) ⊎ (p ≢ unresolved)
Poll-cases unresolved = inl refl
Poll-cases (resolved o) = inr (λ e. cc)
Poll-cases dropped = inr (λ e. cc)

-- A waiter that is added is listed under its key, and no other is lost.
listed-add_waiter :
    (key : Text) (s i : ℕ) (m : Map (List ℕ))
    → (s == i) ≡ true
    → listed i (or_default (add_waiter key s m key)) ≡ true
unfolding listed add_waiter insert or_default
listed-add_waiter key s i m e =
    rw (text_eq_refl key, any-append (λ x. x == i) (or_default (m key)) (s ∷ [])) (ground arith)

listed-add_waiter_kept :
    (key own : Text) (s i : ℕ) (m : Map (List ℕ))
    → listed i (or_default (m own)) ≡ true
    → listed i (or_default (add_waiter key s m own)) ≡ true
unfolding listed add_waiter insert
listed-add_waiter_kept key own s i m e = elim (Bool-cases (text_eq key own)) [
  | inl same ↦
      let e' = subst (λ x. listed i (or_default (m x)) ≡ true) (sym (text_eq→eq key own same)) e in
      rw same (
        unfold or_default in
        (any-append (λ x. x == i) (or_default (m key)) (s ∷ []) ∙ ground (arith, e')))
  | inr ne ↦ rw ne e
]

module _ {C M H : Type 0} (k : Tokio C M H) where
  -- A handle that is still unresolved waits for some key.
  pub record Listed (waiters : Map (List ℕ)) (h : H) : Type 0 where
    pub at :
        (i : ℕ)
        → k.poll i h ≡ unresolved
        → (key : Text) × (listed i (or_default (waiters key)) ≡ true)

  -- What a send to a channel, or the drop of its sender, leaves unresolved.
  settles :
      (op : H → H) (s i : ℕ) (h : H)
      → (k.poll s h ≡ unresolved → k.poll s (op h) ≢ unresolved)
      → (k.poll s h ≢ unresolved → k.poll s (op h) ≡ k.poll s h)
      → ((i : ℕ) → i ≢ s → k.poll i (op h) ≡ k.poll i h)
      → k.poll i (op h) ≡ unresolved
      → (k.poll i h ≡ unresolved) × ((s == i) ≡ false)
  settles op s i h open_case settled_case other e = elim (Bool-cases (s == i)) [
    | inl same ↦
        let si : i ≡ s = ground (arith, ==_iff s i) in
        let es : k.poll s (op h) ≡ unresolved = subst (λ x. k.poll x (op h) ≡ unresolved) si e in
        elim (Poll-cases (k.poll s h)) [
          | inl u ↦ absurd (open_case u es)
          | inr n ↦ absurd (n (sym (settled_case n) ∙ es))
        ]
    | inr ne ↦ (sym (other i (λ x. ground (arith, ==_iff s i))) ∙ e, ne)
  ]

  drop_senders-unresolved :
      (ss : List ℕ) (i : ℕ) (h : H)
      → k.poll i (drop_senders k ss h) ≡ unresolved
      → (k.poll i h ≡ unresolved) × (listed i ss ≡ false)
  unfolding drop_senders listed
  drop_senders-unresolved [] i h e = (e, refl)
  drop_senders-unresolved (s ∷ ss) i h e =
      let (mid, rest) = drop_senders-unresolved ss i (k.drop_sender s h) e in
      let (before, ne) =
        settles (k.drop_sender s) s i h (λ u x. cc (k.poll-drop_sender s h u, x))
          (k.poll-drop_sender_settled s h) (λ j n. k.poll-drop_sender_ne j s h n) mid in
      (before, rw (ne, rest))

  pub resolve_all-unresolved :
      (ss : List ℕ) (o : Outcome) (i : ℕ) (h : H)
      → k.poll i (resolve_all k ss o h) ≡ unresolved
      → (k.poll i h ≡ unresolved) × (listed i ss ≡ false)
  unfolding resolve_all listed
  resolve_all-unresolved [] o i h e = (e, refl)
  resolve_all-unresolved (s ∷ ss) o i h e =
      let (mid, rest) = resolve_all-unresolved ss o i (k.resolve s o h) e in
      let (before, ne) =
        settles (k.resolve s o) s i h (λ u x. cc (k.poll-resolve s o h u, x))
          (k.poll-resolve_settled s o h) (λ j n. k.poll-resolve_ne j s o h n) mid in
      (before, rw (ne, rest))

  -- Waiters that are taken out of the map, and settled.
  pub taken-Listed :
      (key : Text) (waiters : Map (List ℕ)) (h h' : H)
      → ((i : ℕ)
          → k.poll i h' ≡ unresolved
          → (k.poll i h ≡ unresolved) × (listed i (or_default (waiters key)) ≡ false))
      → Listed waiters h
      → Listed (remove key waiters) h'
  unfolding remove
  taken-Listed key waiters h h' settled l = record {
    at = λ i e.
        let (before, away) = settled i e in
        let (own, there) = l.at i before in
        (
          own,
          elim (Bool-cases (text_eq key own)) [
            | inl same ↦ absurd (
                ground (
                  arith,
                  away,
                  there,
                  ap (λ x. listed i (or_default (waiters x))) (text_eq→eq key own same),
                ))
            | inr ne ↦ rw ne there
          ],
        );
  }

  register-Listed :
      (key : Text) (q : Queue C M H)
      → Listed q.waiters q.oneshots
      → Listed (register k key q).1.waiters (register k key q).1.oneshots
  unfolding register
  register-Listed key q l = record {
    at = λ i e. elim (Bool-cases ((k.oneshot q.oneshots).0 == i)) [
      | inl same ↦ (key, listed-add_waiter key (k.oneshot q.oneshots).0 i q.waiters same)
      | inr ne ↦
          let old = k.poll-oneshot_ne i q.oneshots (λ x. ground (arith, ==_iff i i)) in
          let (own, there) = l.at i (sym old ∙ e) in
          (own, listed-add_waiter_kept key own (k.oneshot q.oneshots).0 i q.waiters there)
    ];
  }

  pub claim_by-Listed :
      (job : Job) (q : Queue C M H) (st : Option State)
      → Listed q.waiters q.oneshots
      → Listed (claim_by k st job q).1.waiters (claim_by k st job q).1.oneshots
  unfolding claim_by
  claim_by-Listed job q none l =
      register-Listed job.key (record q { statemap = insert job.key State.pending q.statemap }) l
  claim_by-Listed job q (some State.pending) l = register-Listed job.key q l
  claim_by-Listed job q (some State.processing) l = register-Listed job.key q l
  claim_by-Listed job q (some (State.completed output)) l = l
  claim_by-Listed job q (some (State.failed reason)) l =
      register-Listed job.key (record q { statemap = insert job.key State.pending q.statemap }) l

  pub forget_waiters-Listed :
      (key : Text) (q : Queue C M H)
      → Listed q.waiters q.oneshots
      → Listed (forget_waiters k key q).waiters (forget_waiters k key q).oneshots
  unfolding forget_waiters
  forget_waiters-Listed key q l =
      taken-Listed key q.waiters q.oneshots _
        (λ i. drop_senders-unresolved (or_default (q.waiters key)) i q.oneshots) l
