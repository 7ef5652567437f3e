-- ===== src/Prelude/Outcome.antt =====
-- The outcome of code that can stop the process or touch memory that it does not own.
use mathlib.Core.Path.{◌≡◌, refl, subst}
use mathlib.Core.Option.{Option, none, some}

-- `died` is a failed DIE or exit(EXIT_FAILURE); `fault` is an access outside live storage.
pub data Run {ℓ} (A : Type ℓ) : Type ℓ where
  ok : A → Run A
  died : Run A
  fault : Run A

module _ {ℓ κ} {A : Type ℓ} {B : Type κ} where
  infixl 5 ◌>>=◌
  abbrev pub ◌>>=◌ : Run A → (A → Run B) → Run B
  m >>= f = elim m [ ok a ↦ f a | died ↦ died | fault ↦ fault ]

  pub >>=-ok : {m : Run A} (f : A → Run B) {a : A} {r : Run B} → m ≡ ok a → f a ≡ r → (m >>= f) ≡ r
  >>=-ok f e h = rw e h

-- A read through a pointer: `none` is storage that is not live.
abbrev pub deref {ℓ} : {A : Type ℓ} → Option A → Run A
deref none = fault
deref (some a) = ok a

pub deref-ok {ℓ} : {A : Type ℓ} (o : Option A) {a : A} → deref o ≡ ok a → o ≡ some a
deref-ok none e = absurd (cc)
deref-ok (some b) e = cc

-- The predicate holds of the result, if there is one.
abbrev pub Ends {ℓ κ} : {A : Type ℓ} → (A → Type κ) → Run A → Type κ
Ends P (ok a) = P a
Ends P died = Unit
Ends P fault = Unit

module _ {ℓ κ ι} {A : Type ℓ} {B : Type κ} where
  pub Ends->>= :
      (Q : B → Type ι) (m : Run A) (f : A → Run B)
      → ((a : A) → m ≡ ok a → Ends Q (f a))
      → Ends Q (m >>= f)
  Ends->>= Q (ok a) f h = h a refl
  Ends->>= Q died f h = tt
  Ends->>= Q fault f h = tt

  -- The rule for `>>=`: what holds of the first result is known of it in what follows.
  pub Ends-bind :
      (P : A → Type ι) (Q : B → Type ι) (m : Run A) (f : A → Run B)
      → Ends P m
      → ((a : A) → P a → Ends Q (f a))
      → Ends Q (m >>= f)
  Ends-bind P Q (ok a) f h k = k a h
  Ends-bind P Q died f h k = tt
  Ends-bind P Q fault f h k = tt

  -- The same where nothing is known of the first result.
  pub Ends-after :
      (Q : B → Type ι) (m : Run A) (f : A → Run B) → ((a : A) → Ends Q (f a)) → Ends Q (m >>= f)
  Ends-after Q m f k = Ends->>= Q m f (λ a e. k a)

module _ {ℓ κ ι} {A : Type ℓ} {P : A → Type κ} {Q : A → Type ι} where
  pub Ends-map : ((a : A) → P a → Q a) → (m : Run A) → Ends P m → Ends Q m
  Ends-map f (ok a) h = f a h
  Ends-map f died h = tt
  Ends-map f fault h = tt

module _ {ℓ κ} {A : Type ℓ} where
  pub Ends-at : (Q : A → Type κ) (m : Run A) {a : A} → Ends Q m → m ≡ ok a → Q a
  Ends-at Q m h e = subst (Ends Q) e h
