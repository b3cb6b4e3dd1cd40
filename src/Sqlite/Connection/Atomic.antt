-- ===== src/Sqlite/Connection/Atomic.antt =====
-- A transaction does the whole of what its statements say, or nothing, whatever rusqlite answers.
use agentq.Prelude.{
  ◌≡◌, refl, sym, ◌∙◌, ap, List, [], ◌∷◌, Option, none, some, Result, ok, err, arith, true, false,
  Bool,
}
use agentq.Text.{Text}
use agentq.Store.{StoreError}
use agentq.Sqlite.Table.{Tables}
use agentq.Sqlite.Connection.{
  Connection, ConnectionTo, SqlOn, SqliteStore, Sql, pure, continue, ◌>>=◌, ◌>>◌, answered, call,
  query, execute, rollback, transaction, guarded, with_conn,
}

-- Where the action succeeds, its result and the tables after it are those of `g`.
pub record Runs {D A : Type 0} (m : SqlOn D A) (g : D → A × D) : Type 0 where
  pub at :
      (c : ConnectionTo D) (a : A)
      → (m c).0 ≡ ok a
      → (a ≡ (g c.tables).0) × ((m c).1.tables ≡ (g c.tables).1)

module _ {D A : Type 0} where
  pub Runs-pure : (a : A) → Runs {D = D} (pure a) (λ t. (a, t))
  Runs-pure a = record { at = λ c b h. ground arith }

  answered-ok :
      (answers : List (Option Text)) (f : D → A × D) (t : D) (a : A)
      → (answered answers f t).0 ≡ ok a
      → (a ≡ (f t).0) × ((answered answers f t).1.tables ≡ (f t).1)
  unfolding answered
  answered-ok [] f t a h = ground arith
  answered-ok (none ∷ rest) f t a h = ground arith
  answered-ok (some e ∷ rest) f t a h = cc

  pub Runs-call : (f : D → A × D) → Runs (call f) f
  unfolding call
  Runs-call f = record { at = λ c a h. answered-ok c.answers f c.tables a h }

  pub Runs-query : (f : D → A) → Runs (query f) (λ t. (f t, t))
  unfolding query
  Runs-query f = Runs-call (λ t. (f t, t))

pub Runs-execute : {D : Type 0} (f : D → D) → Runs (execute f) (λ t. (tt, f t))
unfolding execute
Runs-execute f = Runs-call (λ t. (tt, f t))

module _ {D A B : Type 0} where
  continue-ok :
      (r : Result StoreError A) (f : A → SqlOn D B) (c : ConnectionTo D) (b : B)
      → (continue r f c).0 ≡ ok b
      → (a : A) × (r ≡ ok a) × (continue r f c ≡ f a c)
  continue-ok (ok a) f c b h = (a, refl, refl)
  continue-ok (err e) f c b h = cc

  pub Runs-bind :
      {m : SqlOn D A} {f : A → SqlOn D B} (g : D → A × D) (h : A → D → B × D)
      → Runs m g
      → ((a : A) → Runs (f a) (h a))
      → Runs (m >>= f) (λ t. h (g t).0 (g t).1)
  Runs-bind {m} {f} g h rm rf = record {
    at = λ c b e.
        let (a, ea, ec) = continue-ok (m c).0 f (m c).1 b e in
        let (e0, e1) = rm.at c a ea in
        let (e2, e3) = (rf a).at (m c).1 b (sym (ap (λ r. r.0) ec) ∙ e) in
        (
          e2 ∙ (λ i. (h (e0 i) (e1 i)).0),
          ap (λ r. r.1.tables) ec ∙ e3 ∙ (λ i. (h (e0 i) (e1 i)).1),
        );
  }

-- The result of `g` with its tables, or an error with the tables as they were.
pub data AllOrNothing {A : Type 0} (g : Tables → A × Tables) (t : Tables) (r : Result StoreError A)
    (u : Tables) : Type 0 where
  all : r ≡ ok (g t).0 → u ≡ (g t).1 → AllOrNothing g t r u
  nothing : (e : StoreError) → r ≡ err e → u ≡ t → AllOrNothing g t r u

module _ {A : Type 0} where
  rollback-AllOrNothing :
      (g : Tables → A × Tables) (saved : Tables) (r : Result StoreError A) (c : Connection)
      → ((a : A) → r ≡ ok a → (a ≡ (g saved).0) × (c.tables ≡ (g saved).1))
      → AllOrNothing g saved (rollback saved r c).0 (rollback saved r c).1.tables
  unfolding rollback
  rollback-AllOrNothing g saved (ok a) c h = let (e0, e1) = h a refl in all (ap ok e0) e1
  rollback-AllOrNothing g saved (err e) c h = nothing e refl refl

  body-Runs :
      {body : Sql A} (g : Tables → A × Tables)
      → Runs body g
      → Runs (do query (λ _. tt); a ← body; query (λ _. tt); pure a) g
  body-Runs g r =
      Runs-bind _ _ (Runs-query (λ _. tt))
        (λ _. Runs-bind g _ r (λ a. Runs-bind _ _ (Runs-query (λ _. tt)) (λ _. Runs-pure a)))

  pub transaction-AllOrNothing :
      {body : Sql A} (g : Tables → A × Tables) (c : Connection)
      → Runs body g
      → AllOrNothing g c.tables (transaction body c).0 (transaction body c).1.tables
  unfolding transaction
  transaction-AllOrNothing g c r =
      rollback-AllOrNothing g c.tables _ _ (λ a h. (body-Runs g r).at c a h)

  guarded-AllOrNothing :
      {body : Sql A} (g : Tables → A × Tables) (poisoned : Bool) (s : SqliteStore)
      → Runs body g
      → AllOrNothing g s.conn.tables
          (guarded poisoned (transaction body) s).0
          (guarded poisoned (transaction body) s).1.conn.tables
  unfolding guarded
  guarded-AllOrNothing g true s r = nothing _ refl refl
  guarded-AllOrNothing g false s r = transaction-AllOrNothing g s.conn r

  -- The same of a method that takes the lock.
  pub with_conn-AllOrNothing :
      {body : Sql A} (g : Tables → A × Tables) (s : SqliteStore)
      → Runs body g
      → AllOrNothing g s.conn.tables
          (with_conn (transaction body) s).0
          (with_conn (transaction body) s).1.conn.tables
  unfolding with_conn
  with_conn-AllOrNothing g s r = guarded-AllOrNothing g s.poisoned s r
