-- ===== src/Sqlite/Connection.antt =====
-- src/store/sqlite.rs: the connection, its transactions, and the store with its lock and clock.
-- rusqlite is not part of the repository: what it answers to the calls to come is an argument, a
-- list with an error message for each call that fails (and no failure behind its end).
pub mod Atomic
use agentq.Prelude.{Bool, true, false, List, [], ◌∷◌, Option, none, some, Result, ok, err}
use agentq.Text.{Text, codes}
use agentq.Store.{StoreError, backend, StoreM}
use agentq.Workflow.{SystemTime}
use agentq.Sqlite.Table.{Tables}

-- A connection to a database whose contents are of this type.
pub record ConnectionTo (D : Type 0) : Type 0 where
  pub tables : D
  pub answers : List (Option Text)

abbrev pub Connection : Type 0
Connection = ConnectionTo Tables

pub record SqliteStore : Type 0 where
  pub conn : Connection
  pub poisoned : Bool
  pub clock : SystemTime

abbrev pub SqlOn : Type 0 → Type 0 → Type 0
SqlOn D A = ConnectionTo D → Result StoreError A × ConnectionTo D

abbrev pub Sql : Type 0 → Type 0
Sql A = SqlOn Tables A

abbrev pub pure : {D A : Type 0} → A → SqlOn D A
pure a c = (ok a, c)

abbrev pub fail : {D A : Type 0} → StoreError → SqlOn D A
fail e c = (err e, c)

abbrev continue : {D A B : Type 0} → Result StoreError A → (A → SqlOn D B) → SqlOn D B
continue (ok a) f c = f a c
continue (err e) f c = (err e, c)

infixl 5 ◌>>=◌ ◌>>◌
abbrev pub ◌>>=◌ : {D A B : Type 0} → SqlOn D A → (A → SqlOn D B) → SqlOn D B
◌>>=◌ m f c = continue (m c).0 f (m c).1

abbrev pub ◌>>◌ : {D A B : Type 0} → SqlOn D A → SqlOn D B → SqlOn D B
m >> k = m >>= λ _. k

answered :
    {D A : Type 0} → List (Option Text) → (D → A × D) → D → Result StoreError A × ConnectionTo D
answered [] f t = (ok (f t).0, record { tables = (f t).1; answers = [] })
answered (none ∷ rest) f t = (ok (f t).0, record { tables = (f t).1; answers = rest })
answered (some e ∷ rest) f t = (err (backend e), record { tables = t; answers = rest })

-- One call of rusqlite: its effect, or `map_err(|e| StoreError::Backend(e.to_string()))`.
unfoldable pub call : {D A : Type 0} → (D → A × D) → SqlOn D A
unfolding answered
call f c = answered c.answers f c.tables

-- A call that reads, or only prepares.
unfoldable pub query : {D A : Type 0} → (D → A) → SqlOn D A
unfolding call
query f = call (λ t. (f t, t))

-- A call that writes.
unfoldable pub execute : {D : Type 0} → (D → D) → SqlOn D (Unit {0})
unfolding call
execute f = call (λ t. (tt, f t))

-- A transaction that is dropped before its commit rolls back.
rollback :
    {A : Type 0} → Tables → Result StoreError A → Connection → Result StoreError A × Connection
rollback saved (ok a) c = (ok a, c)
rollback saved (err e) c = (err e, record c { tables = saved })

-- `conn.transaction()?`, the statements, and `tx.commit()?`
unfoldable pub transaction : {A : Type 0} → Sql A → Sql A
unfolding query rollback
transaction body c =
    let r = (do query (λ _. tt); a ← body; query (λ _. tt); pure a) c in rollback c.tables r.0 r.1

guarded : {A : Type 0} → Bool → Sql A → StoreM SqliteStore A
guarded true body s = (err (backend (codes "sqlite connection mutex poisoned")), s)
guarded false body s = let r = body s.conn in (r.0, record s { conn = r.1 })

-- `lock_conn(self)?`, then the body on the connection.
unfoldable pub with_conn : {A : Type 0} → Sql A → StoreM SqliteStore A
unfolding guarded
with_conn body s = guarded s.poisoned body s

-- A store whose lock is not poisoned and whose calls do not fail.
abbrev pub healthy : Tables → SystemTime → SqliteStore
healthy t now = record { conn = record { tables = t; answers = [] }; poisoned = false; clock = now }
