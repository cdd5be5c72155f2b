-- ===== src/JobService/Calls.antt =====
-- What the single steps of the service tell, where they succeed and nobody else acts.
use pdx_artifact_engine.Prelude.{
  ℕ, String, true, false, Option, none, some, ok, Value, null, number, bool, string, ==_iff, nat_eq,
  string_eq, ◌≡◌, refl, ap, arith,
}
use pdx_artifact_engine.Actions.{◌>>◌, return, throw, require}
use pdx_artifact_engine.Jobs.Store.{JobRecord, get}
use pdx_artifact_engine.JobService.World.{World, Session, Outside, alone, store_get}
use pdx_artifact_engine.JobService.Requests.{Body, validate_request, found_or_404}
use pdx_artifact_engine.JobService.Retrieve.{scalar_beq}

pub store_get-eq-ok :
    (o : Outside) (id : String) (s : Session) {t : Session} {found : Option JobRecord}
    → store_get alone o id s ≡ (ok found, t)
    → (found ≡ get o.json s.world.rows id) × (t.world ≡ s.world)
unfolding store_get
store_get-eq-ok o id s h = (cc, cc)

pub found_or_404-eq-ok :
    (others : ℕ → World → World) {A : Type 0} (found : Option A) {s t : Session} {a : A}
    → found_or_404 others found s ≡ (ok a, t)
    → (found ≡ some a) × (s ≡ t)
unfolding throw return
found_or_404-eq-ok others none h = absurd (cc)
found_or_404-eq-ok others (some b) h = (cc, cc)

pub validate_request-eq-ok :
    (others : ℕ → World → World) {A : Type 0} (id_of : A → String) (request : Body A)
    (job_id : String) {s t : Session} {body : A}
    → validate_request others id_of request job_id s ≡ (ok body, t)
    → (request ≡ some body) × (id_of body ≡ job_id) × (s ≡ t)
unfolding validate_request ◌>>◌ require return throw
validate_request-eq-ok others id_of none job_id h = absurd (cc)
validate_request-eq-ok others id_of (some b) job_id h =
    (ground arith, ground (arith, ==_iff (id_of b) job_id), ground arith)

pub scalar_beq-true : (a b : Value) → scalar_beq a b ≡ true → a ≡ b
unfolding scalar_beq
scalar_beq-true null null h = refl
scalar_beq-true (number a) (number b) h = ap number (ground (arith, ==_iff a b))
scalar_beq-true (string a) (string b) h = ap string (ground (arith, ==_iff a b))
scalar_beq-true (bool true) (bool true) h = refl
scalar_beq-true (bool false) (bool false) h = refl
scalar_beq-true _ _ h = ground arith
