-- ===== src/Core/Snapshot/Repository.antt =====
-- The repositories in memory. Each method runs under the repository's lock, as one step; what it
-- raises leaves the repository as it was.
use pdx_artifact_engine.Prelude.{
  ℕ, ◌+◌, String, List, Bool, true, false, not, Option, none, some, Result, ok, raise, ◌>>◌, guard,
  is_empty, if◌then◌else◌, ◌==◌, string_eq, nat_eq, Eq, Dict, lookup, insert, ◌&&◌, ◌≡◌, ◌↔◌, arith,
  ==_iff,
}
use pdx_artifact_engine.Core.Book.{Book, store}
use pdx_artifact_engine.Core.Snapshot.Defs.{
  Contract, RunSnapshot, SnapshotError, identity_mismatch, version_mismatch, decision_conflict,
  invalid_decision, require_valid,
}

-- `InMemoryCheckpointRepository`: its `_values`.
abbrev pub CheckpointRepository : Type 0 → Type 0 → Type 0
CheckpointRepository J E = Dict (RunSnapshot J E)

module _ {J E : Type 0} (c : Contract J E) where
  unfoldable pub put_if_absent :
      CheckpointRepository J E
      → RunSnapshot J E
      → Result SnapshotError (Bool × CheckpointRepository J E)
  put_if_absent values s = do
    require_valid c s
    elim (lookup s.snapshot_id values) [
      | some current ↦ ok (false, values)
      | none ↦ ok (true, insert s.snapshot_id s values)
    ]

  -- what `compare_and_set` does under the lock, with the snapshot that it found
  replace :
      CheckpointRepository J E
      → String
      → ℕ
      → RunSnapshot J E
      → Option (RunSnapshot J E)
      → Result SnapshotError (Bool × CheckpointRepository J E)
  replace values snapshot_id expected s none = ok (false, values)
  replace values snapshot_id expected s (some current) =
      if not (current.snapshot_version == expected) then ok (false, values) else do
        guard (s.snapshot_version == expected + 1) version_mismatch
        ok (true, insert snapshot_id s values)

  unfoldable pub compare_and_set :
      CheckpointRepository J E
      → String
      → ℕ
      → RunSnapshot J E
      → Result SnapshotError (Bool × CheckpointRepository J E)
  unfolding replace
  compare_and_set values snapshot_id expected s = do
    require_valid c s
    guard (s.snapshot_id == snapshot_id) identity_mismatch
    replace values snapshot_id expected s (lookup snapshot_id values)

unfoldable pub get : {J E : Type 0} → CheckpointRepository J E → String → Option (RunSnapshot J E)
get values snapshot_id = lookup snapshot_id values

-- A decision that the schema has accepted.
pub record StoredDecision (J : Type 0) : Type 0 where
  pub idempotency_key : String
  pub checkpoint_id : String
  pub rest : J

-- `InMemoryDecisionRepository`
abbrev pub DecisionRepository : Type 0 → Type 0
DecisionRepository J = Book (StoredDecision J)

unfoldable pub get_by_checkpoint_id :
    {J : Type 0} → DecisionRepository J → String → Option (StoredDecision J)
get_by_checkpoint_id repository checkpoint_id = lookup checkpoint_id repository.by_checkpoint

unfoldable pub get_by_idempotency_key :
    {J : Type 0} → DecisionRepository J → String → Option (StoredDecision J)
get_by_idempotency_key repository key = lookup key repository.by_key

module _ {J : Type 0} ⦃j : Eq J⦄ where
  abbrev pub stored_beq : StoredDecision J → StoredDecision J → Bool
  stored_beq a b =
      a.idempotency_key == b.idempotency_key
      && (a.checkpoint_id == b.checkpoint_id && a.rest == b.rest)

  pub stored_beq_iff : (a b : StoredDecision J) → (stored_beq a b ≡ true) ↔ (a ≡ b)
  stored_beq_iff a b = ground (
    arith,
    ==_iff a.idempotency_key b.idempotency_key,
    ==_iff a.checkpoint_id b.checkpoint_id,
    ==_iff a.rest b.rest,
  )

  instance abbrev pub stored_eq : Eq (StoredDecision J)
  stored_eq = record { equals = stored_beq; equals_iff = stored_beq_iff }

  -- the loop over the two decisions that were found: the first of them answers
  answer :
      DecisionRepository J
      → StoredDecision J
      → Option (StoredDecision J)
      → Option (StoredDecision J)
      → Result SnapshotError (StoredDecision J × DecisionRepository J)
  answer repository d (some existing) other =
      if existing == d then ok (existing, repository) else raise decision_conflict
  answer repository d none (some existing) =
      if existing == d then ok (existing, repository) else raise decision_conflict
  answer repository d none none = ok (d, store repository d.idempotency_key d.checkpoint_id d)

  unfoldable pub record_once :
      (decision_schema : StoredDecision J → List String)
      → DecisionRepository J
      → StoredDecision J
      → Result SnapshotError (StoredDecision J × DecisionRepository J)
  unfolding answer
  record_once decision_schema repository d = do
    guard (is_empty (decision_schema d)) (invalid_decision (decision_schema d))
    answer repository d (lookup d.idempotency_key repository.by_key)
        (lookup d.checkpoint_id repository.by_checkpoint)
