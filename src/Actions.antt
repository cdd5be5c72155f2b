-- ===== src/Actions.antt =====
-- Code that reads and writes a state, and may raise; what it wrote before it raised stays written.
use pdx_artifact_engine.Prelude.{Bool, true, false, Result, ok, raise, ◌≡◌, refl, ap, subst}

-- An action on the states `S` that may raise an `E`.
abbrev pub Action {ℓ} : Type ℓ → Type ℓ → Type ℓ → Type ℓ
Action S E A = S → Result E A × S

-- what follows an action that has ended
abbrev pub after {ℓ} : {S E A B : Type ℓ} → (A → Action S E B) → Result E A × S → Result E B × S
after f (ok a, s) = f a s
after f (raise e, s) = (raise e, s)

infixl 5 ◌>>=◌ ◌>>◌
unfoldable pub ◌>>=◌ {ℓ} : {S E A B : Type ℓ} → Action S E A → (A → Action S E B) → Action S E B
◌>>=◌ m f s = after f (m s)

unfoldable pub ◌>>◌ {ℓ} : {S E A B : Type ℓ} → Action S E A → Action S E B → Action S E B
◌>>◌ m k s = after (λ _. k) (m s)

unfoldable pub return {ℓ} : {S E A : Type ℓ} → A → Action S E A
return a s = (ok a, s)

unfoldable pub throw {ℓ} : {S E A : Type ℓ} → E → Action S E A
throw e s = (raise e, s)

-- `if not b: raise e`
unfoldable pub require {ℓ} : {S E : Type ℓ} → Bool → E → Action S E Unit
require true e s = (ok tt, s)
require false e s = (raise e, s)

-- However the action ends, what held before it holds after it.
pub record Keeps {ℓ κ} {S E A : Type ℓ} (P : S → Type κ) (m : Action S E A) : Type (ℓ ⊔ κ) where
  pub keep : (s : S) → P s → P (m s).1

module _ {ℓ κ} {S E : Type ℓ} (P : S → Type κ) where
  after-Keeps :
      {A B : Type ℓ} (f : A → Action S E B)
      → ((a : A) → Keeps P (f a))
      → (r : Result E A × S) → P r.1
      → P (after f r).1
  after-Keeps f keep (ok a, s) p = (keep a).keep s p
  after-Keeps f keep (raise e, s) p = p

  pub bind-Keeps :
      {A B : Type ℓ} {m : Action S E A} {f : A → Action S E B}
      → Keeps P m
      → ((a : A) → Keeps P (f a))
      → Keeps P (m >>= f)
  unfolding ◌>>=◌
  bind-Keeps {m = m} {f} keep_m keep_f = record {
    keep = λ s p. after-Keeps f keep_f (m s) (keep_m.keep s p);
  }

  pub then-Keeps :
      {A B : Type ℓ} {m : Action S E A} {k : Action S E B}
      → Keeps P m
      → Keeps P k
      → Keeps P (m >> k)
  unfolding ◌>>◌
  then-Keeps {m = m} {k} keep_m keep_k = record {
    keep = λ s p. after-Keeps (λ _. k) (λ _. keep_k) (m s) (keep_m.keep s p);
  }

  pub return-Keeps : {A : Type ℓ} (a : A) → Keeps P (return {S = S} {E = E} a)
  unfolding return
  return-Keeps a = record { keep = λ s p. p }

  pub throw-Keeps : {A : Type ℓ} (e : E) → Keeps P (throw {S = S} {A = A} e)
  unfolding throw
  throw-Keeps e = record { keep = λ s p. p }

  pub require-Keeps : (b : Bool) (e : E) → Keeps P (require {S = S} b e)
  unfolding require
  require-Keeps true e = record { keep = λ s p. p }
  require-Keeps false e = record { keep = λ s p. p }

-- The steps of an action that succeeded.
pub bind-eq-ok {ℓ} :
    {S E A B : Type ℓ} (m : Action S E A) (f : A → Action S E B) {s t : S} {b : B}
    → (m >>= f) s ≡ (ok b, t)
    → (a : A) × (u : S) × (m s ≡ (ok a, u)) × (f a u ≡ (ok b, t))
unfolding ◌>>=◌
bind-eq-ok {S = S} {E} {A} {B} m f {s} {t} {b} h = split (m s) refl h
  where
    split :
        (r : Result E A × S)
        → m s ≡ r
        → after f r ≡ (ok b, t)
        → (a : A) × (u : S) × (m s ≡ (ok a, u)) × (f a u ≡ (ok b, t))
    split (ok a, u) e k = (a, u, e, k)
    split (raise e', u) e k = absurd (cc)

-- A test that let an action go on.
pub require-eq-ok {ℓ} :
    {S E : Type ℓ} (b : Bool) (e : E) {s t : S} {u : Unit}
    → require b e s ≡ (ok u, t)
    → (b ≡ true) × (s ≡ t)
unfolding require
require-eq-ok true e h = (refl, cc)
require-eq-ok false e h = absurd (cc)

pub return-eq-ok {ℓ} :
    {S E A : Type ℓ} (a : A) {s t : S} {b : A} → return {E = E} a s ≡ (ok b, t) → (a ≡ b) × (s ≡ t)
unfolding return
return-eq-ok a h = (cc, cc)

pub require_then-eq-ok {ℓ} :
    {S E A : Type ℓ} (b : Bool) (e : E) (k : Action S E A) {s t : S} {a : A}
    → (require b e >> k) s ≡ (ok a, t)
    → (b ≡ true) × (k s ≡ (ok a, t))
unfolding require ◌>>◌
require_then-eq-ok true e k h = (refl, h)
require_then-eq-ok false e k h = absurd (cc)

pub then-eq-ok {ℓ} :
    {S E A B : Type ℓ} (m : Action S E A) (k : Action S E B) {s t : S} {b : B}
    → (m >> k) s ≡ (ok b, t)
    → (a : A) × (u : S) × (m s ≡ (ok a, u)) × (k u ≡ (ok b, t))
unfolding ◌>>◌
then-eq-ok {S = S} {E} {A} {B} m k {s} {t} {b} h = split (m s) refl h
  where
    split :
        (r : Result E A × S)
        → m s ≡ r
        → after (λ _. k) r ≡ (ok b, t)
        → (a : A) × (u : S) × (m s ≡ (ok a, u)) × (k u ≡ (ok b, t))
    split (ok a, u) e p = (a, u, e, p)
    split (raise e', u) e p = absurd (cc)

-- An action after which a property of the state still holds, if it raised.
pub record KeepsOnRaise {ℓ κ} {S E A : Type ℓ} (P : S → Type κ) (m : Action S E A)
    : Type (ℓ ⊔ κ) where
  pub keep : (s : S) {e : E} {t : S} → P s → m s ≡ (raise e, t) → P t

module _ {ℓ κ} {S E : Type ℓ} (P : S → Type κ) where
  pub Keeps-KeepsOnRaise : {A : Type ℓ} {m : Action S E A} → Keeps P m → KeepsOnRaise P m
  Keeps-KeepsOnRaise {m = m} keep_m = record {
    keep = λ s p h. subst P (ap (λ x. x.1) h) (keep_m.keep s p);
  }

  raised-after :
      {A B : Type ℓ} (f : A → Action S E B)
      → ((a : A) → KeepsOnRaise P (f a))
      → (r : Result E A × S) {e : E} {t : S} → P r.1
      → after f r ≡ (raise e, t)
      → P t
  raised-after f keep_f (ok a, s) p h = (keep_f a).keep s p h
  raised-after f keep_f (raise e', s) p h = subst P (ap (λ x. x.1) h) p

  pub bind-KeepsOnRaise :
      {A B : Type ℓ} {m : Action S E A} {f : A → Action S E B}
      → Keeps P m
      → ((a : A) → KeepsOnRaise P (f a))
      → KeepsOnRaise P (m >>= f)
  unfolding ◌>>=◌
  bind-KeepsOnRaise {m = m} {f} keep_m keep_f = record {
    keep = λ s p h. raised-after f keep_f (m s) (keep_m.keep s p) h;
  }

  pub then-KeepsOnRaise :
      {A B : Type ℓ} {m : Action S E A} {k : Action S E B}
      → Keeps P m
      → KeepsOnRaise P k
      → KeepsOnRaise P (m >> k)
  unfolding ◌>>◌
  then-KeepsOnRaise {m = m} {k} keep_m keep_k = record {
    keep = λ s p h. raised-after (λ _. k) (λ _. keep_k) (m s) (keep_m.keep s p) h;
  }

  pub last-KeepsOnRaise :
      {A B : Type ℓ} {m : Action S E A} (b : B) → KeepsOnRaise P m → KeepsOnRaise P (m >> return b)
  unfolding ◌>>◌ return
  last-KeepsOnRaise {A} {B} {m} b keep_m = record {
    keep = λ s {e} {t} p h. split s (m s) e t p refl h;
  }
    where
      split :
          (s : S) (r : Result E A × S) (e : E) (t : S)
          → P s
          → m s ≡ r
          → after {S = S} {E = E} {A = A} {B = B} (λ _ u. (ok b, u)) r ≡ (raise e, t)
          → P t
      split s (ok a, u) e t p h k = absurd (cc)
      split s (raise e', u) e t p h k = subst P (ap (λ x. x.1) k) (keep_m.keep s p h)
