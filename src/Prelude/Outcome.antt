-- ===== src/Prelude/Outcome.antt =====
-- Calls that change a state and may raise. What was committed before a raise stays, so the state
-- comes back beside the error too.
use mathlib.Core.Path.{◌≡◌, refl, ap, ◌∙◌}

-- The exceptions that the modelled code raises or lets through.
pub data Error : Type 0 where
  no_result_found no_dispatcher_route value_error name_error policy_validation : Error
  key_error attribute_error overflow_error : Error
  unclassifiable_signal http_unauthorized http_bad_request http_unprocessable : Error

pub data Result {ℓ} (A : Type ℓ) : Type ℓ where
  ok : A → Result A
  err : Error → Result A

-- A call on a state `S`.
abbrev pub Run {ℓ κ} : Type ℓ → Type κ → Type (ℓ ⊔ κ)
Run S A = S → Result A × S

module _ {ℓ κ} {S : Type ℓ} {A : Type κ} where
  abbrev pub pure : A → Run S A
  pure a s = (ok a, s)

  abbrev pub raise : Error → Run S A
  raise e s = (err e, s)

module _ {ℓ κ μ} {S : Type ℓ} {A : Type κ} {B : Type μ} where
  infixl 5 ◌>>=◌
  abbrev pub ◌>>=◌ : Run S A → (A → Run S B) → Run S B
  ◌>>=◌ m f s = let (r, s') = m s in elim r [ ok a ↦ f a s' | err e ↦ (err e, s') ]

  infixl 5 ◌>>◌
  abbrev pub ◌>>◌ : Run S A → Run S B → Run S B
  m >> k = m >>= λ _. k

-- What `m >>= f` does after `m`.
abbrev then_run : {S A B : Type 0} → (A → Run S B) → Result A × S → Result B × S
then_run f (ok a, s) = f a s
then_run f (err e, s) = (err e, s)

then_run-bind :
    {S A B : Type 0} (f : A → Run S B) (r : Result A) (s : S)
    → elim r as (λ _. Result B × S) [ ok a ↦ f a s | err e ↦ (err e, s) ] ≡ then_run f (r, s)
then_run-bind f (ok a) s = refl
then_run-bind f (err e) s = refl

-- A bind whose first step is known.
pub bind-ok :
    {S A B : Type 0} (m : Run S A) (f : A → Run S B) (s : S) {a : A} {s' : S}
    → m s ≡ (ok a, s')
    → (m >>= f) s ≡ f a s'
bind-ok m f s h = then_run-bind f (m s).0 (m s).1 ∙ ap (then_run f) h

pub bind-err :
    {S A B : Type 0} (m : Run S A) (f : A → Run S B) (s : S) {e : Error} {s' : S}
    → m s ≡ (err e, s')
    → (m >>= f) s ≡ (err e, s')
bind-err m f s h = then_run-bind f (m s).0 (m s).1 ∙ ap (then_run f) h

-- Steps that agree on every state agree after a first step.
pub bind-pointwise :
    {S A B : Type 0} (m : Run S A) (f g : A → Run S B) (s : S)
    → ((a : A) (s : S) → f a s ≡ g a s)
    → (m >>= f) s ≡ (m >>= g) s
bind-pointwise m f g s h = ap (λ k. (m >>= k) s) (λ i a t. h a t i)
