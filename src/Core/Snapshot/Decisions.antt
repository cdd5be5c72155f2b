-- ===== src/Core/Snapshot/Decisions.antt =====
-- The decision repository after any number of calls of `record_once`.
use pdx_artifact_engine.Prelude.{
  String, List, none, some, ok, ==_iff, Eq, lookup, lookup-insert_self, ◌≡◌, refl, arith,
  Option-cases, ◌⊎◌, inl, inr,
}
use pdx_artifact_engine.Core.Book.{
  store, empty_book, Keeps, Keeps-refl, Keeps-trans, store-Keeps, IsCoherent, empty-IsCoherent,
  store-IsCoherent,
}
use pdx_artifact_engine.Core.Snapshot.Repository.{
  StoredDecision, DecisionRepository, stored_eq, record_once, get_by_idempotency_key,
  get_by_checkpoint_id,
}

module _ {J : Type 0} ⦃j : Eq J⦄ (schema : StoredDecision J → List String) where
  pub data Recorded (r : DecisionRepository J) (d result : StoredDecision J)
      (r' : DecisionRepository J) : Type 0 where
    known :
        (lookup d.idempotency_key r.by_key ≡ some d) → result ≡ d → r' ≡ r → Recorded r d result r'
    decided :
        (lookup d.idempotency_key r.by_key ≡ none)
        → (lookup d.checkpoint_id r.by_checkpoint ≡ some d)
        → result ≡ d
        → r' ≡ r
        → Recorded r d result r'
    stored :
        (lookup d.idempotency_key r.by_key ≡ none)
        → (lookup d.checkpoint_id r.by_checkpoint ≡ none)
        → result ≡ d
        → r' ≡ store r d.idempotency_key d.checkpoint_id d
        → Recorded r d result r'

  once-Recorded :
      (r : DecisionRepository J) (d : StoredDecision J) {result : StoredDecision J}
      {r' : DecisionRepository J}
      → record_once schema r d ≡ ok (result, r')
      → Recorded r d result r'
  unfolding record_once
  once-Recorded r d {result} {r'} h = elim (Option-cases (lookup d.idempotency_key r.by_key)) [
    | inr (old, found) ↦
        known (ground (arith, ==_iff old d)) (ground (arith, ==_iff old d)) (ground arith)
    | inl new ↦ elim (Option-cases (lookup d.checkpoint_id r.by_checkpoint)) [
      | inr (old, found) ↦
          decided new (ground (arith, ==_iff old d)) (ground (arith, ==_iff old d)) (ground arith)
      | inl free ↦ stored new free (ground arith) (ground arith)
    ]
  ]

  -- Calls of `record_once` that succeeded, one after another.
  pub data Calls (start : DecisionRepository J) : DecisionRepository J → Type 0 where
    here : Calls start start
    call :
        {r r' : DecisionRepository J} {result : StoredDecision J}
        → Calls start r
        → (d : StoredDecision J) → record_once schema r d ≡ ok (result, r')
        → Calls start r'

  abbrev pub IsRepository : DecisionRepository J → Type 0
  IsRepository = IsCoherent (λ d. d.idempotency_key) (λ d. some d.checkpoint_id)

  Recorded-Keeps :
      {r r' : DecisionRepository J} {d result : StoredDecision J}
      → Recorded r d result r'
      → Keeps r r'
  Recorded-Keeps {r} (known _ _ e) = rw e (Keeps-refl r)
  Recorded-Keeps {r} (decided _ _ _ e) = rw e (Keeps-refl r)
  Recorded-Keeps {r} {d = d} (stored new free _ e) =
      rw e (store-Keeps r d.idempotency_key d.checkpoint_id d new free)

  Recorded-IsRepository :
      {r r' : DecisionRepository J} {d result : StoredDecision J}
      → IsRepository r
      → Recorded r d result r'
      → IsRepository r'
  Recorded-IsRepository i (known _ _ e) = rw e i
  Recorded-IsRepository i (decided _ _ _ e) = rw e i
  Recorded-IsRepository {d = d} i (stored new free _ e) = rw e (
      store-IsCoherent (λ x. x.idempotency_key) (λ x. some x.checkpoint_id) d.checkpoint_id d i new
        free refl)

  Calls-Keeps : {start r : DecisionRepository J} → Calls start r → Keeps start r
  Calls-Keeps {start} here = Keeps-refl start
  Calls-Keeps (call {r = r} calls d h) =
      Keeps-trans (Calls-Keeps calls) (Recorded-Keeps (once-Recorded r d h))

  Calls-IsRepository : {r : DecisionRepository J} → Calls empty_book r → IsRepository r
  Calls-IsRepository here = empty-IsCoherent (λ d. d.idempotency_key) (λ d. some d.checkpoint_id)
  Calls-IsRepository (call {r = r} calls d h) =
      Recorded-IsRepository (Calls-IsRepository calls) (once-Recorded r d h)

  -- A recorded decision is the one of its checkpoint.
  Recorded_found :
      {r r' : DecisionRepository J} {d result : StoredDecision J}
      → IsRepository r
      → Recorded r d result r'
      → (result ≡ d)
        × (lookup d.idempotency_key r'.by_key ≡ some d)
        × (lookup d.checkpoint_id r'.by_checkpoint ≡ some d)
  Recorded_found {r} {d = d} i (known found same e) =
      let (_, (c, at, held)) = i.keyed d.idempotency_key d found in
      (same, rw e found, rw e (at_checkpoint c at held))
    where
      at_checkpoint :
          (c : String)
          → some d.checkpoint_id ≡ some c
          → lookup c r.by_checkpoint ≡ some d
          → lookup d.checkpoint_id r.by_checkpoint ≡ some d
      at_checkpoint c at held = cc (at, held)
  Recorded_found {d = d} i (decided new found same e) =
      absurd (cc (new, (i.checkpointed d.checkpoint_id d found).1))
  Recorded_found {r} {d = d} i (stored new free same e) = (
    same,
    rw e (lookup-insert_self d.idempotency_key d r.by_key),
    rw e (lookup-insert_self d.checkpoint_id d r.by_checkpoint),
  )

  -- The repository gives the decision for its key and for its checkpoint.
  pub record Stands (d : StoredDecision J) (later : DecisionRepository J) : Type 0 where
    pub by_key : get_by_idempotency_key later d.idempotency_key ≡ some d
    pub by_checkpoint : get_by_checkpoint_id later d.checkpoint_id ≡ some d

  -- Once an empty repository, after any calls, has accepted a decision, it answers with that
  -- decision for its key and for its checkpoint after any further calls.
  pub record_once-Stands :
      (r : DecisionRepository J) (d : StoredDecision J) {result : StoredDecision J}
      {r' later : DecisionRepository J}
      → Calls empty_book r
      → record_once schema r d ≡ ok (result, r')
      → Calls r' later
      → (result ≡ d) × Stands d later
  unfolding get_by_idempotency_key get_by_checkpoint_id
  record_once-Stands r d before h calls =
      let (same, keyed, held) = Recorded_found (Calls-IsRepository before) (once-Recorded r d h) in
      let keeps = Calls-Keeps calls in
      (
        same,
        record {
          by_key = keeps.keys d.idempotency_key d keyed;
          by_checkpoint = keeps.checkpoints d.checkpoint_id d held;
        },
      )

  Calls-trans : {a b c : DecisionRepository J} → Calls a b → Calls b c → Calls a c
  Calls-trans p here = p
  Calls-trans p (call q d h) = call (Calls-trans p q) d h

  -- Of two decisions that a repository has accepted, with any number of calls between them, that
  -- share the idempotency key or the checkpoint, the second is the first.
  pub record_once_unique :
      (r later : DecisionRepository J) (d d' : StoredDecision J) {result result' : StoredDecision J}
      {r' last : DecisionRepository J}
      → Calls empty_book r
      → record_once schema r d ≡ ok (result, r')
      → Calls r' later
      → record_once schema later d' ≡ ok (result', last)
      → (d.idempotency_key ≡ d'.idempotency_key) ⊎ (d.checkpoint_id ≡ d'.checkpoint_id)
      → d ≡ d'
  unfolding get_by_idempotency_key get_by_checkpoint_id
  record_once_unique r later d d' before h calls h' shared =
      let first = (record_once-Stands r d before h (call calls d' h')).1 in
      let second = (record_once-Stands later d' (Calls-trans (call before d h) calls) h' here).1 in
      elim shared [
        | inl e ↦ cc (first.by_key, second.by_key, e)
        | inr e ↦ cc (first.by_checkpoint, second.by_checkpoint, e)
      ]
