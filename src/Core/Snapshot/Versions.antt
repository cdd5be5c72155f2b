-- ===== src/Core/Snapshot/Versions.antt =====
-- The checkpoint repository after any number of calls.
use pdx_artifact_engine.Prelude.{
  ℕ, ◌+◌, ◌<◌, String, [], Bool, true, false, none, some, ok, is_empty_iff, ◌==◌, ==_iff, string_eq,
  nat_eq, lookup, insert, lookup-insert_self, lookup-insert, lookup-insert_cases, lookup-insert_new,
  lookup-nil, ◌≡◌, ◌≢◌, ◌⊎◌, inl, inr, refl, sym, ap, ◌∙◌, arith, Option-cases, Bool-cases,
}
use pdx_artifact_engine.Core.Snapshot.Defs.{Contract, RunSnapshot, validate_run_snapshot}
use pdx_artifact_engine.Core.Snapshot.Repository.{
  CheckpointRepository, put_if_absent, compare_and_set,
}

module _ {J E : Type 0} (c : Contract J E) where
  -- A snapshot that was put under an identity that was free.
  pub record Placed (r : CheckpointRepository J E) (s : RunSnapshot J E)
      (r' : CheckpointRepository J E) : Type 0 where
    pub valid : validate_run_snapshot c s ≡ []
    pub free : lookup s.snapshot_id r ≡ none
    pub result : r' ≡ insert s.snapshot_id s r

  -- `put_if_absent` answers `True` for a valid snapshot of a free identity, which it puts, or
  -- answers `False` and changes nothing.
  put-Placed :
      (r : CheckpointRepository J E) (s : RunSnapshot J E) {b : Bool}
      {r' : CheckpointRepository J E}
      → put_if_absent c r s ≡ ok (b, r')
      → ((b ≡ true) × Placed r s r') ⊎ ((b ≡ false) × (r' ≡ r))
  unfolding put_if_absent
  put-Placed r s {b} {r'} h = elim (Option-cases (lookup s.snapshot_id r)) [
    | inl free ↦ inl (
      ground arith,
      record {
        valid = ground (arith, is_empty_iff (validate_run_snapshot c s));
        free = free;
        result = ground arith;
      },
    )
    | inr (old, found) ↦ inr (ground arith)
  ]

  -- A successful replacement, with the version that was expected.
  pub record Swapped (r : CheckpointRepository J E) (snapshot_id : String) (expected : ℕ)
      (s : RunSnapshot J E) (r' : CheckpointRepository J E) : Type 0 where
    pub old : RunSnapshot J E
    pub valid : validate_run_snapshot c s ≡ []
    pub identity : s.snapshot_id ≡ snapshot_id
    pub found : lookup snapshot_id r ≡ some old
    pub matched : old.snapshot_version ≡ expected
    pub advanced : s.snapshot_version ≡ expected + 1
    pub result : r' ≡ insert snapshot_id s r

  -- `compare_and_set` answers `True` for a valid replacement of the expected version by the next,
  -- or answers `False` and changes nothing.
  cas-Swapped :
      (r : CheckpointRepository J E) (snapshot_id : String) (expected : ℕ) (s : RunSnapshot J E)
      {b : Bool} {r' : CheckpointRepository J E}
      → compare_and_set c r snapshot_id expected s ≡ ok (b, r')
      → ((b ≡ true) × Swapped r snapshot_id expected s r') ⊎ ((b ≡ false) × (r' ≡ r))
  unfolding compare_and_set
  cas-Swapped r snapshot_id expected s {b} {r'} h = elim (Option-cases (lookup snapshot_id r)) [
    | inl absent ↦ inr (ground arith)
    | inr (old, found) ↦ elim (Bool-cases (old.snapshot_version == expected)) [
      | inl same ↦ inl (
        ground arith,
        record {
          old = old;
          valid = ground (arith, is_empty_iff (validate_run_snapshot c s));
          identity = ground (arith, ==_iff s.snapshot_id snapshot_id);
          found = found;
          matched = ground arith;
          advanced = ground arith;
          result = ground arith;
        },
      )
      | inr other ↦ inr (ground arith)
    ]
  ]

  -- What an identity of `r` has become in `r'`: the same snapshot, or one of a later version.
  pub record Later (r : CheckpointRepository J E) (r' : CheckpointRepository J E) : Type 0 where
    pub at :
        (i : String) (x : RunSnapshot J E)
        → lookup i r ≡ some x
        → (y : RunSnapshot J E) × (lookup i r' ≡ some y)
          × ((y ≡ x) ⊎ (x.snapshot_version < y.snapshot_version))

  Later-refl : (r : CheckpointRepository J E) → Later r r
  Later-refl r = record { at = λ i x h. (x, h, inl refl) }

  later_still :
      {x y z : RunSnapshot J E}
      → ((y ≡ x) ⊎ (x.snapshot_version < y.snapshot_version))
      → ((z ≡ y) ⊎ (y.snapshot_version < z.snapshot_version))
      → ((z ≡ x) ⊎ (x.snapshot_version < z.snapshot_version))
  later_still {x} {y} {z} (inl e) (inl e') = inl (e' ∙ e)
  later_still {x} {y} {z} (inl e) (inr lt) =
      inr (omega (arith, ap (λ (s : RunSnapshot J E). s.snapshot_version) e))
  later_still {x} {y} {z} (inr lt) (inl e') =
      inr (omega (arith, ap (λ (s : RunSnapshot J E). s.snapshot_version) e'))
  later_still {x} {y} {z} (inr lt) (inr lt') = inr (omega arith)

  Later-trans : {a b d : CheckpointRepository J E} → Later a b → Later b d → Later a d
  Later-trans p q = record {
    at = λ i x h.
        let (y, f, o) = p.at i x h in let (z, f', o') = q.at i y f in (z, f', later_still o o');
  }

  Placed-Later :
      {r r' : CheckpointRepository J E} {s : RunSnapshot J E} → Placed r s r' → Later r r'
  Placed-Later {r} {s = s} p = record {
    at = λ i x h. (x, rw p.result (lookup-insert_new s.snapshot_id i s x r p.free h), inl refl);
  }

  Swapped-at :
      {r r' : CheckpointRepository J E} {snapshot_id : String} {expected : ℕ} {s : RunSnapshot J E}
      → Swapped r snapshot_id expected s r'
      → (i : String) (x : RunSnapshot J E) → lookup i r ≡ some x
      → (y : RunSnapshot J E) × (lookup i r' ≡ some y)
        × ((y ≡ x) ⊎ (x.snapshot_version < y.snapshot_version))
  Swapped-at {r} {snapshot_id = k} {s = s} w i x h = elim (Bool-cases (k == i)) [
    | inl same ↦
        let e : k ≡ i = (==_iff k i).0 same in
        let old : w.old ≡ x = cc (w.found, h, e) in
        (
          s,
          rw w.result (lookup-insert k i s r ∙ rw same),
          inr (
              omega (
                arith,
                w.matched,
                w.advanced,
                ap (λ (s : RunSnapshot J E). s.snapshot_version) old,
              )),
        )
    | inr other ↦ (x, rw w.result (lookup-insert k i s r ∙ rw other h), inl refl)
  ]

  -- Calls of `put_if_absent` and `compare_and_set` that did not raise, one after another.
  pub data Calls (start : CheckpointRepository J E) : CheckpointRepository J E → Type 0 where
    here : Calls start start
    put :
        {r r' : CheckpointRepository J E} {b : Bool}
        → Calls start r
        → (s : RunSnapshot J E) → put_if_absent c r s ≡ ok (b, r')
        → Calls start r'
    swap :
        {r r' : CheckpointRepository J E} {b : Bool}
        → Calls start r
        → (snapshot_id : String) (expected : ℕ) (s : RunSnapshot J E)
        → compare_and_set c r snapshot_id expected s ≡ ok (b, r')
        → Calls start r'

  Later-of_eq : {r r' : CheckpointRepository J E} → r' ≡ r → Later r r'
  Later-of_eq {r} e = rw e (Later-refl r)

  -- No call loses a snapshot, and none replaces it but by one of a later version.
  pub Calls-Later : {start r : CheckpointRepository J E} → Calls start r → Later start r
  Calls-Later {start} here = Later-refl start
  Calls-Later (put {r = r} calls s h) =
      Later-trans (Calls-Later calls)
        (elim (put-Placed r s h) [ inl (_, p) ↦ Placed-Later p | inr (_, e) ↦ Later-of_eq e ])
  Calls-Later (swap {r = r} calls i v s h) =
      Later-trans (Calls-Later calls) (elim (cas-Swapped r i v s h) [
        | inl (_, w) ↦ record { at = Swapped-at w }
        | inr (_, e) ↦ Later-of_eq e
      ])

  Swapped-found :
      {r r' : CheckpointRepository J E} {i : String} {v : ℕ} {s : RunSnapshot J E}
      → Swapped r i v s r'
      → lookup i r' ≡ some s
  Swapped-found {r} {i = i} {s = s} w = rw w.result (lookup-insert_self i s r)

  version_clash :
      {r r' later last : CheckpointRepository J E} {i : String} {v : ℕ} {s s' y : RunSnapshot J E}
      → Swapped r i v s r'
      → (w' : Swapped later i v s' last) → w'.old ≡ y
      → ((y ≡ s) ⊎ (s.snapshot_version < y.snapshot_version))
      → ⊥
  version_clash w w' same order = elim order [
    | inl e ↦
        omega (
          arith,
          w.advanced,
          w'.matched,
          ap (λ (x : RunSnapshot J E). x.snapshot_version) (same ∙ e),
        )
    | inr lt ↦
        omega
          (arith, w.advanced, w'.matched, lt, ap (λ (x : RunSnapshot J E). x.snapshot_version) same)
  ]

  -- Optimistic locking: once a replacement has succeeded with some expected version, no later
  -- replacement of the same snapshot succeeds with it, whatever was called in between.
  pub compare_and_set_once :
      (r later : CheckpointRepository J E) {r' last : CheckpointRepository J E}
      (snapshot_id : String) (expected : ℕ) (s s' : RunSnapshot J E)
      → compare_and_set c r snapshot_id expected s ≡ ok (true, r')
      → Calls r' later
      → compare_and_set c later snapshot_id expected s' ≢ ok (true, last)
  compare_and_set_once r later {r'} snapshot_id expected s s' h calls h' =
      elim (cas-Swapped r snapshot_id expected s h) [
        | inr (no', _) ↦ absurd (cc no')
        | inl (_, w) ↦ elim (cas-Swapped later snapshot_id expected s' h') [
          | inr (no', _) ↦ absurd (cc no')
          | inl (_, w') ↦
              let (y, found, order) = (Calls-Later calls).at snapshot_id s (Swapped-found w) in
              let same : w'.old ≡ y = cc (w'.found, found) in version_clash w w' same order
        ]
      ]

  -- Every snapshot that the repository holds is valid, and stands under its own identity.
  pub record IsStore (r : CheckpointRepository J E) : Type 0 where
    pub at :
        (i : String) (x : RunSnapshot J E)
        → lookup i r ≡ some x
        → (x.snapshot_id ≡ i) × (validate_run_snapshot c x ≡ [])

  insert-IsStore :
      {r r' : CheckpointRepository J E} (i : String) (s : RunSnapshot J E)
      → IsStore r
      → s.snapshot_id ≡ i
      → validate_run_snapshot c s ≡ []
      → r' ≡ insert i s r
      → IsStore r'
  insert-IsStore {r} i s store own valid e = rw e (record {
    at = λ j x h. elim (lookup-insert_cases i j s x r h) [
      | inl (k, v) ↦ (
        ap (λ (z : RunSnapshot J E). z.snapshot_id) (sym v) ∙ (own ∙ k),
        ap (validate_run_snapshot c) (sym v) ∙ valid,
      )
      | inr (_, old) ↦ store.at j x old
    ];
  })

  -- Whatever is called on an empty repository, it holds valid snapshots only, each under its own
  -- identity.
  pub Calls-IsStore : {r : CheckpointRepository J E} → Calls [] r → IsStore r
  Calls-IsStore here = record { at = λ i x h. absurd (cc (h, lookup-nil {V = RunSnapshot J E} i)) }
  Calls-IsStore (put {r = r} calls s h) = elim (put-Placed r s h) [
    | inl (_, p) ↦ insert-IsStore s.snapshot_id s (Calls-IsStore calls) refl p.valid p.result
    | inr (_, e) ↦ rw e (Calls-IsStore calls)
  ]
  Calls-IsStore (swap {r = r} calls i v s h) = elim (cas-Swapped r i v s h) [
    | inl (_, w) ↦ insert-IsStore i s (Calls-IsStore calls) w.identity w.valid w.result
    | inr (_, e) ↦ rw e (Calls-IsStore calls)
  ]
