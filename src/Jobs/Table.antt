-- ===== src/Jobs/Table.antt =====
-- What the statements on the table do to the row of one job.
use pdx_artifact_engine.Prelude.{
  String, List, [], ◌∷◌, ◌++◌, map, Bool, true, false, Option, some, any, elem, unique,
  if◌then◌else◌, ==_iff, ==_refl, string_eq, ◌≡◌, refl, ap, arith, Bool-cases, inl, inr,
}
use pdx_artifact_engine.Jobs.Rows.{JobRow, select_first, update_where, rowcount, has_id}

-- the row of a job
abbrev pub find_row : String → List JobRow → Option JobRow
find_row job_id rows = select_first (has_id job_id) rows

abbrev pub ids : List JobRow → List String
ids rows = map (λ (r : JobRow). r.job_id) rows

abbrev pub keys : List JobRow → List String
keys rows = map (λ (r : JobRow). r.idempotency_key) rows

head_found :
    (p : JobRow → Bool) (r : JobRow) (rows : List JobRow) {row : JobRow}
    → p r ≡ true
    → select_first p (r ∷ rows) ≡ some row
    → r ≡ row
head_found p r rows hit h = ground arith

tail_found :
    (p : JobRow → Bool) (r : JobRow) (rows : List JobRow) {row : JobRow}
    → p r ≡ false
    → select_first p (r ∷ rows) ≡ some row
    → select_first p rows ≡ some row
tail_found p r rows miss h = ground arith

-- A row that is found is one of the table's.
pub found_id :
    (p : JobRow → Bool) (rows : List JobRow) (row : JobRow)
    → select_first p rows ≡ some row
    → elem row.job_id (ids rows) ≡ true
found_id p [] row h = absurd (cc)
found_id p (r ∷ rows) row h = elim (Bool-cases (p r)) [
  | inl hit ↦ rw (← head_found p r rows hit h, ==_refl r.job_id) refl
  | inr miss ↦ ground (arith, found_id p rows row (tail_found p r rows miss h))
]

pub found_meets :
    (p : JobRow → Bool) (rows : List JobRow) (row : JobRow)
    → select_first p rows ≡ some row
    → p row ≡ true
found_meets p [] row h = absurd (cc)
found_meets p (r ∷ rows) row h = elim (Bool-cases (p r)) [
  | inl hit ↦ rw (← head_found p r rows hit h) hit
  | inr miss ↦ found_meets p rows row (tail_found p r rows miss h)
]

module _ (q : JobRow → Bool) (f : JobRow → JobRow) where
  pub ids-update_where :
      ((r : JobRow) → (f r).job_id ≡ r.job_id)
      → (rows : List JobRow) → ids (update_where q f rows) ≡ ids rows
  ids-update_where same [] = refl
  ids-update_where same (r ∷ rows) = ground (arith, same r, ids-update_where same rows)

  pub keys-update_where :
      ((r : JobRow) → (f r).idempotency_key ≡ r.idempotency_key)
      → (rows : List JobRow) → keys (update_where q f rows) ≡ keys rows
  keys-update_where same [] = refl
  keys-update_where same (r ∷ rows) = ground (arith, same r, keys-update_where same rows)

  id_kept :
      ((r : JobRow) → (f r).job_id ≡ r.job_id)
      → (r : JobRow) → (if q r then f r else r).job_id ≡ r.job_id
  id_kept same r = elim (Bool-cases (q r)) [ inl hit ↦ rw hit (same r) | inr miss ↦ rw miss refl ]

  -- An update leaves a row alone that does not meet its condition.
  pub find_row-update_where :
      (job_id : String) (rows : List JobRow) (row : JobRow)
      → ((r : JobRow) → (f r).job_id ≡ r.job_id)
      → find_row job_id rows ≡ some row
      → find_row job_id (update_where q f rows) ≡ some (if q row then f row else row)
  find_row-update_where job_id [] row same h = absurd (cc)
  find_row-update_where job_id (r ∷ rows) row same h = elim (Bool-cases (has_id job_id r)) [
    | inl hit ↦
        let first : r ≡ row = head_found (has_id job_id) r rows hit h in
        rw (id_kept same r, hit) (ap (λ x. some (if q x then f x else x)) first)
    | inr miss ↦
        rw (id_kept same r, miss)
          (find_row-update_where job_id rows row same (tail_found (has_id job_id) r rows miss h))
  ]

  pub find_row-changed :
      (job_id : String) (rows : List JobRow) (row : JobRow)
      → ((r : JobRow) → (f r).job_id ≡ r.job_id)
      → q row ≡ true
      → find_row job_id rows ≡ some row
      → find_row job_id (update_where q f rows) ≡ some (f row)
  find_row-changed job_id rows row same hit h =
      ground (arith, find_row-update_where job_id rows row same h)

  pub find_row-kept :
      (job_id : String) (rows : List JobRow) (row : JobRow)
      → ((r : JobRow) → (f r).job_id ≡ r.job_id)
      → q row ≡ false
      → find_row job_id rows ≡ some row
      → find_row job_id (update_where q f rows) ≡ some row
  find_row-kept job_id rows row same miss h =
      ground (arith, find_row-update_where job_id rows row same h)

pub find_row-append :
    (job_id : String) (rows more : List JobRow) (row : JobRow)
    → find_row job_id rows ≡ some row
    → find_row job_id (rows ++ more) ≡ some row
find_row-append job_id [] more row h = absurd (cc)
find_row-append job_id (r ∷ rows) more row h = ground (arith, find_row-append job_id rows more row)

pub find_row_id :
    (job_id : String) (rows : List JobRow) (row : JobRow)
    → find_row job_id rows ≡ some row
    → row.job_id ≡ job_id
find_row_id job_id [] row h = absurd (cc)
find_row_id job_id (r ∷ rows) row h =
    ground (arith, ==_iff r.job_id job_id, find_row_id job_id rows row)

-- No row meets a condition on a job that the table does not hold.
rowcount_absent :
    (q : JobRow → Bool) (job_id : String) (rows : List JobRow)
    → ((r : JobRow) → q r ≡ true → has_id job_id r ≡ true)
    → elem job_id (ids rows) ≡ false
    → rowcount q rows ≡ 0
rowcount_absent q job_id [] implies h = refl
rowcount_absent q job_id (r ∷ rows) implies h = ground (
  arith,
  implies r,
  ==_iff r.job_id job_id,
  ==_iff job_id r.job_id,
  rowcount_absent q job_id rows implies,
)

-- A condition on one job is met by its row alone.
pub rowcount-find_row :
    (q : JobRow → Bool) (job_id : String) (rows : List JobRow) (row : JobRow)
    → unique (ids rows) ≡ true
    → ((r : JobRow) → q r ≡ true → has_id job_id r ≡ true)
    → find_row job_id rows ≡ some row
    → rowcount q rows ≡ (if q row then 1 else 0)
rowcount-find_row q job_id [] row u implies h = absurd (cc)
rowcount-find_row q job_id (r ∷ rows) row u implies h = elim (Bool-cases (has_id job_id r)) [
  | inl hit ↦
      let first : r ≡ row = head_found (has_id job_id) r rows hit h in
      let absent = rowcount_absent q job_id rows implies (ground (arith, ==_iff r.job_id job_id)) in
      rw (← first, absent) (ground arith)
  | inr miss ↦
      let rest =
        rowcount-find_row q job_id rows row (ground arith) implies
          (tail_found (has_id job_id) r rows miss h) in
      ground (arith, rest, implies r)
]

-- The first row that meets a condition is the row of its job.
pub find_row-select_first :
    (p : JobRow → Bool) (rows : List JobRow) (row : JobRow)
    → unique (ids rows) ≡ true
    → select_first p rows ≡ some row
    → find_row row.job_id rows ≡ some row
find_row-select_first p [] row u h = absurd (cc)
find_row-select_first p (r ∷ rows) row u h = elim (Bool-cases (p r)) [
  | inl hit ↦ let first : r ≡ row = head_found p r rows hit h in rw (← first, ==_refl r.job_id) refl
  | inr miss ↦
      let found = tail_found p r rows miss h in
      let inside = found_id p rows row found in
      ground (
        arith,
        find_row-select_first p rows row (ground arith) found,
        ==_iff r.job_id row.job_id,
        ap (λ i. elem i (ids rows)) {x = r.job_id} {y = row.job_id},
      )
]

pub untouched :
    (q : JobRow → Bool) (f : JobRow → JobRow) (rows : List JobRow)
    → rowcount q rows ≡ 0
    → update_where q f rows ≡ rows
untouched q f [] h = refl
untouched q f (r ∷ rows) h = ground (arith, untouched q f rows)

pub not_any : (q : JobRow → Bool) (rows : List JobRow) → rowcount q rows ≡ 0 → any q rows ≡ false
not_any q [] h = refl
not_any q (r ∷ rows) h = ground (arith, not_any q rows)

pub any_row :
    (q : JobRow → Bool) (job_id : String) (rows : List JobRow) (row : JobRow)
    → find_row job_id rows ≡ some row
    → q row ≡ true
    → any q rows ≡ true
any_row q job_id [] row h met = absurd (cc)
any_row q job_id (r ∷ rows) row h met = elim (Bool-cases (has_id job_id r)) [
  | inl hit ↦ rw (head_found (has_id job_id) r rows hit h, met) refl
  | inr miss ↦
      ground (arith, any_row q job_id rows row (tail_found (has_id job_id) r rows miss h) met)
]

-- A job of the table has a row.
pub find_row-elem :
    (job_id : String) (rows : List JobRow)
    → elem job_id (ids rows) ≡ true
    → (row : JobRow) × (find_row job_id rows ≡ some row)
find_row-elem job_id [] h = absurd (cc)
find_row-elem job_id (r ∷ rows) h = elim (Bool-cases (has_id job_id r)) [
  | inl hit ↦ (r, rw hit refl)
  | inr miss ↦
      let (row, found) =
        find_row-elem job_id rows
          (ground (arith, ==_iff r.job_id job_id, ==_iff job_id r.job_id)) in
      (row, rw miss found)
]
