-- ===== src/Core/ExternalOperation/Lifecycle.antt =====
-- What holds of an operation after any number of updates.
use pdx_artifact_engine.Prelude.{◌≡◌, refl, ap, ◌∙◌, true, false, arith, elem, ok}
use pdx_artifact_engine.Core.ExternalOperation.{
  Status, status_eq, transitions, ExternalOperation, Contract, Update, require_valid,
  transition_external_operation,
}
use pdx_artifact_engine.Core.ExternalOperation.Steps.{
  identity, is_settled, transition-Changed, HasTimes, valid-HasTimes,
}

module _ {J : Type 0} (c : Contract J) where
  -- `o'` comes of `o` by updates that succeeded.
  pub data Updates (o : ExternalOperation J) : ExternalOperation J → Type 0 where
    here : Updates o o
    next :
        {m o' : ExternalOperation J}
        → Updates o m
        → (u : Update J) → transition_external_operation c m u ≡ ok o'
        → Updates o o'

  -- However often an operation is updated, it keeps the eight fields that identify it.
  pub Updates-identity : {o o' : ExternalOperation J} → Updates o o' → identity o' ≡ identity o
  Updates-identity here = refl
  Updates-identity (next {m = m} r u e) =
      ap identity (transition-Changed c m u e).result ∙ Updates-identity r

  settled_stuck : (s t : Status) → is_settled s ≡ true → elem t (transitions s) ≡ false
  unfolding transitions
  settled_stuck s t h = ground arith

  -- An operation that is completed, failed or cancelled takes no further update.
  pub settled_stays :
      {o o' : ExternalOperation J} → is_settled o.status ≡ true → Updates o o' → o' ≡ o
  settled_stays h here = refl
  settled_stays h (next {m = m} r u e) = absurd (
      cc (
        (transition-Changed c m u e).allowed,
        settled_stuck m.status u.status
            (ap (λ (x : ExternalOperation J). is_settled x.status) (settled_stays h r) ∙ h),
      ))

  Updates-valid :
      {o o' : ExternalOperation J}
      → require_valid c o ≡ ok tt
      → Updates o o'
      → require_valid c o' ≡ ok tt
  Updates-valid v here = v
  Updates-valid v (next {m = m} r u e) = (transition-Changed c m u e).is_valid

  -- After any updates of a valid operation, both of its times can be read, either both with an offset
  -- or both without, and the time of the last update is not before the time of submission, which is
  -- that of the first operation.
  pub Updates-HasTimes :
      {o o' : ExternalOperation J}
      → require_valid c o ≡ ok tt
      → Updates o o'
      → HasTimes c o' × (o'.submitted_at ≡ o.submitted_at)
  Updates-HasTimes {o} {o'} v r =
      (valid-HasTimes c o' (Updates-valid v r), ap (λ i. i.submitted_at) (Updates-identity r))
