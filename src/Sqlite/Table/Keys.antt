-- ===== src/Sqlite/Table/Keys.antt =====
-- The primary key of `steps`: no two rows have the same workflow and step index.
use agentq.Prelude.{
  ℕ, ◌≡◌, refl, Bool, true, false, List, [], ◌∷◌, Option, none, some, arith, any, All, ◌∙◌,
  Bool-cases, inl, inr,
}
use agentq.Text.{Text, text_eq_iff}
use agentq.Sqlite.Table.{StepRecord, is_step, select_step, upsert_step, select_expired, is_expired}

-- No row of the list has the key of `r`.
abbrev pub Fresh : StepRecord → List StepRecord → Type 0
Fresh r = All (λ q. is_step r.workflow_id r.step_index q ≡ false)

abbrev pub Unique : List StepRecord → Type 0
Unique [] = Unit
Unique (r ∷ rs) = Fresh r rs × Unique rs

Fresh-upsert_step :
    (r new : StepRecord) (rs : List StepRecord)
    → is_step r.workflow_id r.step_index new ≡ false
    → Fresh r rs
    → Fresh r (upsert_step new rs)
unfolding upsert_step is_step
Fresh-upsert_step r new [] h f = (h, tt)
Fresh-upsert_step r new (q ∷ rs) h f =
    elim (Bool-cases (is_step new.workflow_id new.step_index q)) [
      | inl same ↦ rw same (h, f.1)
      | inr other ↦ rw other (f.0, Fresh-upsert_step r new rs h f.1)
    ]

-- Two rows with one key fit the same queries, both ways.
is_step_trans :
    (r q p : StepRecord)
    → is_step r.workflow_id r.step_index q ≡ true
    → is_step r.workflow_id r.step_index p ≡ is_step q.workflow_id q.step_index p
unfolding is_step
is_step_trans r q p h = ground (
  arith,
  text_eq_iff q.workflow_id r.workflow_id,
  text_eq_iff p.workflow_id r.workflow_id,
  text_eq_iff p.workflow_id q.workflow_id,
)

is_step_sym :
    (r q : StepRecord) → is_step r.workflow_id r.step_index q ≡ is_step q.workflow_id q.step_index r
unfolding is_step
is_step_sym r q =
    ground (arith, text_eq_iff q.workflow_id r.workflow_id, text_eq_iff r.workflow_id q.workflow_id)

Fresh-same_key :
    (r new : StepRecord) (rs : List StepRecord)
    → is_step new.workflow_id new.step_index r ≡ true
    → Fresh r rs
    → Fresh new rs
Fresh-same_key r new [] h f = tt
Fresh-same_key r new (q ∷ rs) h f = (is_step_trans new r q h ∙ f.0, Fresh-same_key r new rs h f.1)

-- An upsert keeps the key unique.
pub Unique-upsert_step :
    (new : StepRecord) (rs : List StepRecord) → Unique rs → Unique (upsert_step new rs)
unfolding upsert_step is_step
Unique-upsert_step new [] u = (tt, tt)
Unique-upsert_step new (r ∷ rs) u = elim (Bool-cases (is_step new.workflow_id new.step_index r)) [
  | inl same ↦ rw same (Fresh-same_key r new rs same u.0, u.1)
  | inr other ↦
      rw other
        (Fresh-upsert_step r new rs (is_step_sym r new ∙ other) u.0, Unique-upsert_step new rs u.1)
]

select_expired-Fresh :
    (w : Text) (i : ℕ) (s n : ℕ) (rs : List StepRecord)
    → All (λ q. is_step w i q ≡ false) rs
    → any (is_step w i) (select_expired s n rs) ≡ false
unfolding select_expired
select_expired-Fresh w i s n [] f = refl
select_expired-Fresh w i s n (r ∷ rs) f = ground (arith, select_expired-Fresh w i s n rs f.1)

unfoldable pub opt_expired : ℕ → ℕ → Option StepRecord → Bool
opt_expired s n none = false
opt_expired s n (some r) = is_expired s n r

Fresh-key :
    (w : Text) (i : ℕ) (r : StepRecord) (rs : List StepRecord)
    → is_step w i r ≡ true
    → Fresh r rs
    → All (λ q. is_step w i q ≡ false) rs
Fresh-key w i r [] h f = tt
Fresh-key w i r (q ∷ rs) h f = (key_eq ∙ f.0, Fresh-key w i r rs h f.1)
  where
    key_eq : is_step w i q ≡ is_step r.workflow_id r.step_index q
    key_eq =
        unfold is_step in
        ground (
          arith,
          text_eq_iff r.workflow_id w,
          text_eq_iff q.workflow_id w,
          text_eq_iff q.workflow_id r.workflow_id,
        )

-- The expired leases name a step exactly if its row is an expired lease.
pub any-select_expired :
    (w : Text) (i : ℕ) (s n : ℕ) (rs : List StepRecord)
    → Unique rs
    → any (is_step w i) (select_expired s n rs) ≡ opt_expired s n (select_step w i rs)
unfolding select_expired select_step opt_expired
any-select_expired w i s n [] u = refl
any-select_expired w i s n (r ∷ rs) u = ground (
  arith,
  any-select_expired w i s n rs u.1,
  λ (h : is_step w i r ≡ true). select_expired-Fresh w i s n rs (Fresh-key w i r rs h u.0),
)
