-- ===== src/Jobs/Attempts.antt =====
-- How often the jobs of a table can still be claimed.
use pdx_artifact_engine.Prelude.{
  ℕ, ◌+◌, ◌-◌, ◌≤◌, ◌<◌, String, List, [], ◌∷◌, Bool, true, not, ◌||◌, Option, none, some, ok, leb,
  ◌==◌, ==_iff, nat_eq, string_eq, option_eq, ◌≡◌, refl, sym, ap, ◌∙◌, arith, inl, inr, Bool-cases,
  Option-cases, all,
}
use pdx_artifact_engine.Jobs.Rows.{
  JobRow, select_first, update_where, rowcount, may_take, may_update, may_release, holds,
  is_offered,
}
use pdx_artifact_engine.Jobs.Store.{
  JobRecord, Json, claimed, take, row_to_record, claim_next, update, overwrite, renew_lease,
  renewed, release_expired_lease, released,
}
use pdx_artifact_engine.Jobs.Table.{found_meets}
use pdx_artifact_engine.Jobs.Effects.{updated_rows, renewed_rows, released_rows}

-- the attempts that all jobs together have left
unfoldable pub attempts_left : ℕ → List JobRow → ℕ
attempts_left most [] = 0
attempts_left most (row ∷ rows) = (most - row.attempt_count) + attempts_left most rows

module _ (most : ℕ) (q : JobRow → Bool) (f : JobRow → JobRow) where
  -- Each row that an update meets loses one attempt.
  left-taken :
      (attempts : ℕ) (rows : List JobRow)
      → attempts < most
      → ((x : JobRow) → q x ≡ true → x.attempt_count ≡ attempts)
      → ((x : JobRow) → (f x).attempt_count ≡ attempts + 1)
      → attempts_left most (update_where q f rows) + rowcount q rows ≡ attempts_left most rows
  unfolding attempts_left
  left-taken attempts [] few before after = refl
  left-taken attempts (x ∷ rows) few before after =
      ground (arith, before x, after x, left-taken attempts rows few before after)

  -- the rows that an update meets have no more attempts left than before
  abbrev pub no_more : List JobRow → Bool
  no_more rows = all (λ x. not (q x) || leb x.attempt_count (f x).attempt_count) rows

  left-no_more :
      (rows : List JobRow)
      → no_more rows ≡ true
      → attempts_left most (update_where q f rows) ≤ attempts_left most rows
  unfolding attempts_left
  left-no_more [] h = ground arith
  left-no_more (x ∷ rows) h = ground (arith, left-no_more rows)

  left-same :
      (rows : List JobRow)
      → ((x : JobRow) → (f x).attempt_count ≡ x.attempt_count)
      → attempts_left most (update_where q f rows) ≡ attempts_left most rows
  unfolding attempts_left
  left-same [] same = refl
  left-same (x ∷ rows) same = ground (arith, same x, left-same rows same)

module _ (c : Json) where
  claim_left :
      (rows : List JobRow) (owner : String) (lease_seconds most now : ℕ) (drawn : String)
      (r : JobRecord) (rows' : List JobRow)
      → claim_next c rows owner lease_seconds most now drawn ≡ (some r, rows')
      → attempts_left most rows' + 1 ≡ attempts_left most rows
  unfolding claim_next row_to_record
  claim_left rows owner lease_seconds most now drawn r rows' h =
      elim (Option-cases (select_first (is_offered now most) rows)) [
        | inl nothing ↦ absurd (ground arith)
        | inr (row, found) ↦
            let q = may_take row.job_id row.attempt_count now in
            let change =
              take c (claimed c (row_to_record c row) owner (now + lease_seconds) drawn) in
            let offered = found_meets (is_offered now most) rows row found in
            elim (Bool-cases (rowcount q rows == 1)) [
              | inl one ↦
                  let left =
                    left-taken most q change row.attempt_count rows (ground arith)
                      (λ x hit. ground (arith, ==_iff x.attempt_count row.attempt_count))
                      (λ x. refl) in
                  let changed : rows' ≡ update_where q change rows = ground arith in
                  let once : rowcount q rows ≡ 1 = (==_iff (rowcount q rows) 1).0 one in
                  ap (λ x. attempts_left most x + 1) changed
                  ∙ ap (λ n. attempts_left most (update_where q change rows) + n) (sym once)
                  ∙ left
              | inr more ↦ absurd (ground arith)
            ]
      ]

  -- Calls on a table, `n` of which are claims that took a job. No job is added, and no update writes
  -- back a lower count of attempts than its row has.
  pub data Claims (most : ℕ) (rows : List JobRow) : ℕ → List JobRow → Type 0 where
    nothing : Claims most rows 0 rows
    claims :
        {n : ℕ} {rows1 rows2 : List JobRow} (owner : String) (lease_seconds now : ℕ)
        (drawn : String) (r : JobRecord)
        → Claims most rows n rows1
        → claim_next c rows1 owner lease_seconds most now drawn ≡ (some r, rows2)
        → Claims most rows (n + 1) rows2
    updates :
        {n : ℕ} {rows1 rows2 : List JobRow} {done : Bool} (r : JobRecord) (expected : Option String)
        → Claims most rows n rows1
        → no_more most (may_update r.job_id expected) (overwrite c r none) rows1 ≡ true
        → update c rows1 r expected ≡ ok (done, rows2)
        → Claims most rows n rows2
    renews :
        {n : ℕ} {rows1 rows2 : List JobRow} {done : Bool} (job_id owner token : String)
        (lease_seconds now : ℕ)
        → Claims most rows n rows1
        → renew_lease rows1 job_id owner token lease_seconds now ≡ (done, rows2)
        → Claims most rows n rows2
    releases :
        {n : ℕ} {rows1 rows2 : List JobRow} {done : Bool} (job_id token : String) (now : ℕ)
        → Claims most rows n rows1
        → release_expired_lease c rows1 job_id token now ≡ ok (done, rows2)
        → Claims most rows n rows2

  -- The column `result_json` has no part in the attempts.
  any_json :
      (most : ℕ) (q : JobRow → Bool) (r : JobRecord) (json : Option String) (rows : List JobRow)
      → no_more most q (overwrite c r none) rows ≡ true
      → no_more most q (overwrite c r json) rows ≡ true
  any_json most q r json [] h = refl
  any_json most q r json (x ∷ rows) h = ground (arith, any_json most q r json rows)

  -- Workers that claim under one bound of attempts stop claiming: among the calls on a table there are
  -- never more claims than its jobs had attempts left at first, however the claims are interleaved
  -- with updates that do not lower a count of attempts, renewals and releases of leases, in any order
  -- and by whomever.
  pub Claims-end :
      (most : ℕ) (rows : List JobRow) {n : ℕ} {rows' : List JobRow}
      → Claims most rows n rows'
      → n + attempts_left most rows' ≤ attempts_left most rows
  Claims-end most rows nothing = ground arith
  Claims-end most rows (claims {rows1 = rows1} {rows2} owner lease_seconds now drawn r before h) =
      let left = claim_left rows1 owner lease_seconds most now drawn r rows2 h in
      let rest = Claims-end most rows before in omega arith
  Claims-end most rows (updates {rows1 = rows1} {rows2} r expected before kept h) =
      let (json, is_done, same) = updated_rows c rows1 r expected h in
      let less =
        left-no_more most (may_update r.job_id expected) (overwrite c r json) rows1
          (any_json most (may_update r.job_id expected) r json rows1 kept) in
      let rest = Claims-end most rows before in
      let changed = ap (attempts_left most) same in omega arith
  Claims-end most rows
        (renews {rows1 = rows1} {rows2} job_id owner token lease_seconds now before h) =
      let same = renewed_rows c rows1 job_id owner token lease_seconds now h in
      let rest = Claims-end most rows before in
      let changed = ap (attempts_left most) same in
      let less =
        left-same most (holds job_id owner token) (renewed (now + lease_seconds)) rows1
          (λ x. refl) in
      omega arith
  Claims-end most rows (releases {rows1 = rows1} {rows2} job_id token now before h) =
      let rest = Claims-end most rows before in
      elim (released_rows c rows1 job_id token now h) [
        | inl same ↦ let changed = ap (attempts_left most) same in omega arith
        | inr (json, same) ↦
            let changed = ap (attempts_left most) same in
            let less =
              left-same most (may_release job_id token now) (released c json) rows1 (λ x. refl) in
            omega arith
      ]
