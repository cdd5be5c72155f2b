-- ===== src/Jobs/Keys.antt =====
-- The keys of the table.
use pdx_artifact_engine.Prelude.{
  ℕ, ◌+◌, String, List, [], ◌∷◌, ◌++◌, Bool, true, false, Option, any, elem, unique, elem-append,
  ==_iff, string_eq, ◌≡◌, refl, ap, ◌∙◌, arith, ok, inl, inr,
}
use pdx_artifact_engine.Jobs.Rows.{
  JobRow, update_where, has_id, has_key, may_take, may_update, holds, may_release,
}
use pdx_artifact_engine.Jobs.Store.{
  JobRecord, Json, take, claim_next, insert_job, row_of, overwrite, update, renewed, renew_lease,
  released, release_expired_lease,
}
use pdx_artifact_engine.Jobs.Table.{ids, keys, ids-update_where, keys-update_where}
use pdx_artifact_engine.Jobs.Effects.{
  inserted_rows, updated_rows, renewed_rows, claimed_rows, released_rows,
}

-- `job_id` and `idempotency_key` name one row each.
pub record HasKeys (rows : List JobRow) : Type 0 where
  pub by_id : unique (ids rows) ≡ true
  pub by_key : unique (keys rows) ≡ true

unique-snoc :
    (a : String) (xs : List String)
    → unique xs ≡ true
    → elem a xs ≡ false
    → unique (xs ++ a ∷ []) ≡ true
unique-snoc a [] u h = refl
unique-snoc a (x ∷ xs) u h =
    ground (arith, unique-snoc a xs, elem-append x xs (a ∷ []), ==_iff x a, ==_iff a x)

ids-snoc :
    (rows : List JobRow) (row : JobRow) → ids (rows ++ row ∷ []) ≡ ids rows ++ row.job_id ∷ []
ids-snoc [] row = refl
ids-snoc (r ∷ rows) row = ap (λ x. r.job_id ∷ x) (ids-snoc rows row)

keys-snoc :
    (rows : List JobRow) (row : JobRow)
    → keys (rows ++ row ∷ []) ≡ keys rows ++ row.idempotency_key ∷ []
keys-snoc [] row = refl
keys-snoc (r ∷ rows) row = ap (λ x. r.idempotency_key ∷ x) (keys-snoc rows row)

no_id :
    (job_id : String) (rows : List JobRow)
    → any (has_id job_id) rows ≡ false
    → elem job_id (ids rows) ≡ false
no_id job_id [] h = refl
no_id job_id (r ∷ rows) h =
    ground (arith, no_id job_id rows, ==_iff job_id r.job_id, ==_iff r.job_id job_id)

no_key :
    (key : String) (rows : List JobRow)
    → any (has_key key) rows ≡ false
    → elem key (keys rows) ≡ false
no_key key [] h = refl
no_key key (r ∷ rows) h =
    ground (arith, no_key key rows, ==_iff key r.idempotency_key, ==_iff r.idempotency_key key)

module _ (c : Json) where
  -- Calls of the store that succeeded, one after another.
  pub data Calls (start : List JobRow) : List JobRow → Type 0 where
    none_yet : Calls start start
    inserts :
        {rows rows' : List JobRow}
        → Calls start rows
        → (r : JobRecord) → insert_job c rows r ≡ ok rows'
        → Calls start rows'
    claims :
        {rows rows' : List JobRow} {taken : Option JobRecord}
        → Calls start rows
        → (owner : String) (lease_seconds max_attempts now : ℕ) (drawn : String)
        → claim_next c rows owner lease_seconds max_attempts now drawn ≡ (taken, rows')
        → Calls start rows'
    updates :
        {rows rows' : List JobRow} {done : Bool}
        → Calls start rows
        → (r : JobRecord) (expected : Option String) → update c rows r expected ≡ ok (done, rows')
        → Calls start rows'
    renews :
        {rows rows' : List JobRow} {done : Bool}
        → Calls start rows
        → (job_id owner token : String) (lease_seconds now : ℕ)
        → renew_lease rows job_id owner token lease_seconds now ≡ (done, rows')
        → Calls start rows'
    releases :
        {rows rows' : List JobRow} {done : Bool}
        → Calls start rows
        → (job_id token : String) (now : ℕ)
        → release_expired_lease c rows job_id token now ≡ ok (done, rows')
        → Calls start rows'

  update_where-HasKeys :
      (q : JobRow → Bool) (f : JobRow → JobRow)
      → ((r : JobRow) → (f r).job_id ≡ r.job_id)
      → ((r : JobRow) → (f r).idempotency_key ≡ r.idempotency_key)
      → {rows : List JobRow} → HasKeys rows
      → HasKeys (update_where q f rows)
  update_where-HasKeys q f same_id same_key {rows} k = record {
    by_id = ap unique (ids-update_where q f same_id rows) ∙ k.by_id;
    by_key = ap unique (keys-update_where q f same_key rows) ∙ k.by_key;
  }

  -- From a table whose rows differ in their job ids and in their idempotency keys, such as the empty
  -- one, any successful calls of the store lead to such a table.
  pub Calls-HasKeys : {start rows : List JobRow} → HasKeys start → Calls start rows → HasKeys rows
  Calls-HasKeys k none_yet = k
  Calls-HasKeys k (inserts {rows = m} calls r h) =
      let (new_id, new_key, (json, same)) = inserted_rows c m r h in
      let k' = Calls-HasKeys k calls in
      rw same (record {
        by_id =
            ap unique (ids-snoc m (row_of c r json))
            ∙ unique-snoc r.job_id (ids m) k'.by_id (no_id r.job_id m new_id);
        by_key =
            ap unique (keys-snoc m (row_of c r json))
            ∙ unique-snoc r.idempotency_key (keys m) k'.by_key (no_key r.idempotency_key m new_key);
      })
  Calls-HasKeys k (claims {rows = m} calls owner lease_seconds max_attempts now drawn h) =
      elim (claimed_rows c m owner lease_seconds max_attempts now drawn h) [
        | inl same ↦ rw same (Calls-HasKeys k calls)
        | inr (row, r, same) ↦ rw same (
            update_where-HasKeys (may_take row.job_id row.attempt_count now) (take c r) (λ x. refl)
              (λ x. refl) (Calls-HasKeys k calls))
      ]
  Calls-HasKeys k (updates {rows = m} calls r expected h) =
      let (json, done, same) = updated_rows c m r expected h in
      rw same (
        update_where-HasKeys (may_update r.job_id expected) (overwrite c r json) (λ x. refl)
          (λ x. refl) (Calls-HasKeys k calls))
  Calls-HasKeys k (renews {rows = m} calls job_id owner token lease_seconds now h) =
      rw (renewed_rows c m job_id owner token lease_seconds now h) (
        update_where-HasKeys (holds job_id owner token) (renewed (now + lease_seconds)) (λ x. refl)
          (λ x. refl) (Calls-HasKeys k calls))
  Calls-HasKeys k (releases {rows = m} calls job_id token now h) =
      elim (released_rows c m job_id token now h) [
        | inl same ↦ rw same (Calls-HasKeys k calls)
        | inr (json, same) ↦ rw same (
            update_where-HasKeys (may_release job_id token now) (released c json) (λ x. refl)
              (λ x. refl) (Calls-HasKeys k calls))
      ]
