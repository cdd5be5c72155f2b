-- ===== src/Core/Approval/Ledger.antt =====
-- The ledger after any number of calls of `record`.
use pdx_artifact_engine.Prelude.{
  String, true, none, some, some, ok, guard_passed, not, ◌≡◌, arith, Eq, ◌==◌, ==_iff, ==_refl,
  string_eq, option_eq, lookup, lookup-insert_self, Option-cases, inl, inr,
}
use pdx_artifact_engine.Core.Approval.Defs.{
  Checkpoint, ApprovalRequest, Decision, ApprovalLedger, record_decision, decision_eq, key_of,
}
use pdx_artifact_engine.Core.Book.{
  empty_book, store, Keeps, Keeps-refl, Keeps-trans, store-Keeps, IsCoherent, empty-IsCoherent,
  store-IsCoherent,
}

module _ {J E : Type 0} ⦃j : Eq J⦄ ⦃e : Eq E⦄ where
  -- The two ways in which a call of `record` succeeds.
  pub data Recorded (ledger : ApprovalLedger J E) (checkpoint : Checkpoint E)
      (d result : Decision J E) (after : ApprovalLedger J E) : Type 0 where
    replayed :
        lookup (key_of d) ledger.by_key ≡ some d
        → result ≡ d
        → after ≡ ledger
        → Recorded ledger checkpoint d result after
    stored :
        lookup (key_of d) ledger.by_key ≡ none
        → lookup checkpoint.checkpoint_id ledger.by_checkpoint ≡ none
        → checkpoint.status ≡ "pending"
        → d.checkpoint_id ≡ some checkpoint.checkpoint_id
        → result ≡ d
        → after ≡ store ledger (key_of d) checkpoint.checkpoint_id d
        → Recorded ledger checkpoint d result after

  record_decision-Recorded :
      (ledger : ApprovalLedger J E) (checkpoint : Checkpoint E) (request : ApprovalRequest E)
      (d : Decision J E) {result : Decision J E} {after : ApprovalLedger J E}
      → record_decision ledger checkpoint request d ≡ ok (result, after)
      → Recorded ledger checkpoint d result after
  unfolding record_decision
  record_decision-Recorded ledger checkpoint request d {result} {after} h =
      elim (Option-cases (lookup (key_of d) ledger.by_key)) [
        | inl new ↦
            stored new (ground arith) (ground (arith, ==_iff checkpoint.status "pending"))
              (ground (arith, ==_iff d.checkpoint_id (some checkpoint.checkpoint_id)))
              (ground arith) (ground arith)
        | inr (old, found) ↦
            replayed (ground (arith, ==_iff old d)) (ground (arith, ==_iff old d)) (ground arith)
      ]

  -- Calls of `record` that succeeded, one after another.
  pub data Calls (start : ApprovalLedger J E) : ApprovalLedger J E → Type 0 where
    here : Calls start start
    call :
        {ledger after : ApprovalLedger J E} {result : Decision J E}
        → Calls start ledger
        → (checkpoint : Checkpoint E) → (request : ApprovalRequest E) → (d : Decision J E)
        → record_decision ledger checkpoint request d ≡ ok (result, after)
        → Calls start after

  -- The decisions of a ledger stand under their own keys and checkpoints.
  abbrev pub IsLedger : ApprovalLedger J E → Type 0
  IsLedger = IsCoherent key_of (λ d. d.checkpoint_id)

  Recorded-Keeps :
      {ledger after : ApprovalLedger J E} {checkpoint : Checkpoint E} {d result : Decision J E}
      → Recorded ledger checkpoint d result after
      → Keeps ledger after
  Recorded-Keeps {ledger} (replayed found _ same) = rw same (Keeps-refl ledger)
  Recorded-Keeps {ledger} {checkpoint = c} {d = d} (stored new free _ _ _ same) =
      rw same (store-Keeps ledger (key_of d) c.checkpoint_id d new free)

  Recorded-IsLedger :
      {ledger after : ApprovalLedger J E} {checkpoint : Checkpoint E} {d result : Decision J E}
      → IsLedger ledger
      → Recorded ledger checkpoint d result after
      → IsLedger after
  Recorded-IsLedger i (replayed found _ same) = rw same i
  Recorded-IsLedger {checkpoint = c} {d = d} i (stored new free _ mine _ same) =
      rw same (store-IsCoherent key_of (λ x. x.checkpoint_id) c.checkpoint_id d i new free mine)

  -- In whatever order decisions are recorded, none that the ledger holds is ever lost or replaced.
  pub Calls-Keeps : {start after : ApprovalLedger J E} → Calls start after → Keeps start after
  Calls-Keeps {start} here = Keeps-refl start
  Calls-Keeps (call {ledger = l} calls c r d h) =
      Keeps-trans (Calls-Keeps calls) (Recorded-Keeps (record_decision-Recorded l c r d h))

  -- From the empty ledger on, both dictionaries hold the same decisions, each under its own
  -- idempotency key and its own checkpoint.
  pub Calls-IsLedger : {after : ApprovalLedger J E} → Calls empty_book after → IsLedger after
  Calls-IsLedger here = empty-IsCoherent key_of (λ d. d.checkpoint_id)
  Calls-IsLedger (call {ledger = l} calls c r d h) =
      Recorded-IsLedger (Calls-IsLedger calls) (record_decision-Recorded l c r d h)

  Recorded_found :
      {ledger after : ApprovalLedger J E} {checkpoint : Checkpoint E} {d result : Decision J E}
      → Recorded ledger checkpoint d result after
      → (result ≡ d) × (lookup (key_of d) after.by_key ≡ some d)
  Recorded_found (replayed found same e) = (same, rw e found)
  Recorded_found {ledger} {d = d} (stored _ _ _ _ same e) =
      (same, rw e (lookup-insert_self (key_of d) d ledger.by_key))

  record_needs_key :
      (ledger : ApprovalLedger J E) (checkpoint : Checkpoint E) (request : ApprovalRequest E)
      (d : Decision J E) {result : Decision J E} {after : ApprovalLedger J E}
      → record_decision ledger checkpoint request d ≡ ok (result, after)
      → not (key_of d == "") ≡ true
  unfolding record_decision
  record_needs_key ledger checkpoint request d h = (guard_passed _ _ _ h).0

  replay_known :
      (ledger : ApprovalLedger J E) (checkpoint : Checkpoint E) (request : ApprovalRequest E)
      (d : Decision J E)
      → not (key_of d == "") ≡ true
      → lookup (key_of d) ledger.by_key ≡ some d
      → record_decision ledger checkpoint request d ≡ ok (d, ledger)
  unfolding record_decision
  replay_known ledger checkpoint request d key found = rw (key, found, ==_refl d)

  -- A decision that was recorded is answered again the same way by every later ledger, for any
  -- checkpoint and request handed in beside it, and recording it again changes nothing.
  pub replay_safe :
      (ledger : ApprovalLedger J E) {after later : ApprovalLedger J E} {result : Decision J E}
      (checkpoint checkpoint' : Checkpoint E) (request request' : ApprovalRequest E)
      (d : Decision J E)
      → record_decision ledger checkpoint request d ≡ ok (result, after)
      → Calls after later
      → record_decision later checkpoint' request' d ≡ ok (result, later)
  replay_safe ledger {later = later} checkpoint checkpoint' request request' d h calls =
      let (same, found) = Recorded_found (record_decision-Recorded ledger checkpoint request d h) in
      rw same (
        replay_known later checkpoint' request' d (record_needs_key ledger checkpoint request d h)
          ((Calls-Keeps calls).keys (key_of d) d found))

  Calls-trans : {a b c : ApprovalLedger J E} → Calls a b → Calls b c → Calls a c
  Calls-trans p here = p
  Calls-trans p (call q c r d h) = call (Calls-trans p q) c r d h

  -- Where a ledger holds a decision by its key, it holds it by its checkpoint too.
  by_checkpoint_of :
      {ledger : ApprovalLedger J E} (d : Decision J E)
      → IsLedger ledger
      → lookup (key_of d) ledger.by_key ≡ some d
      → (c : String) × (d.checkpoint_id ≡ some c) × (lookup c ledger.by_checkpoint ≡ some d)
  by_checkpoint_of d i found = (i.keyed (key_of d) d found).1

  same_checkpoint :
      {ledger : ApprovalLedger J E} (d d' : Decision J E)
      → IsLedger ledger
      → lookup (key_of d) ledger.by_key ≡ some d
      → lookup (key_of d') ledger.by_key ≡ some d'
      → d.checkpoint_id ≡ d'.checkpoint_id
      → d ≡ d'
  same_checkpoint {ledger} d d' i f f' same =
      let (c, at, found) = by_checkpoint_of d i f in
      let (c', at', found') = by_checkpoint_of d' i f' in cc (at, at', found, found', same)

  -- Two decisions that a ledger has accepted for one checkpoint are one decision: the second call
  -- comes any number of calls after the first.
  pub one_decision :
      (ledger later : ApprovalLedger J E) {after last : ApprovalLedger J E}
      {result result' : Decision J E} (checkpoint checkpoint' : Checkpoint E)
      (request request' : ApprovalRequest E) (d d' : Decision J E)
      → Calls empty_book ledger
      → record_decision ledger checkpoint request d ≡ ok (result, after)
      → Calls after later
      → record_decision later checkpoint' request' d' ≡ ok (result', last)
      → d.checkpoint_id ≡ d'.checkpoint_id
      → d ≡ d'
  one_decision ledger later checkpoint checkpoint' request request' d d' before h calls h' same =
      let rest = call calls checkpoint' request' d' h' in
      let first = (Recorded_found (record_decision-Recorded ledger checkpoint request d h)).1 in
      let second = (Recorded_found (record_decision-Recorded later checkpoint' request' d' h')).1 in
      same_checkpoint d d' (Calls-IsLedger (Calls-trans (call before checkpoint request d h) rest))
        ((Calls-Keeps rest).keys (key_of d) d first) second same
