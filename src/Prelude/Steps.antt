-- ===== src/Prelude/Steps.antt =====
-- Calls that relate the state before to the state after by a preorder, whether they return or raise.
use mathlib.Core.Bool.{Bool, true, false}
use recova.Prelude.Tests.{if◌then◌else◌}
use recova.Prelude.Outcome.{Run, Result, ok, err, Error, pure, raise, ◌>>=◌}

pub record IsPreorder {S : Type 0} (R : S → S → Type 0) : Type 0 where
  pub stays : (s : S) → R s s
  pub chains : (a b c : S) → R a b → R b c → R a c

pub record Respects {S A : Type 0} (R : S → S → Type 0) (m : Run S A) : Type 0 where
  pub at : (s : S) → R s (m s).1

module _ {S A : Type 0} {R : S → S → Type 0} where
  pub Respects-pure : IsPreorder R → (a : A) → Respects R (pure a)
  Respects-pure p a = record { at = λ s. p.stays s }

  pub Respects-raise : IsPreorder R → (e : Error) → Respects R (raise {A = A} e)
  Respects-raise p e = record { at = λ s. p.stays s }

  pub Respects-if :
      (b : Bool) (m n : Run S A) → Respects R m → Respects R n → Respects R (if b then m else n)
  Respects-if true m n hm hn = hm
  Respects-if false m n hm hn = hn

  -- A test in the state that the call starts in.
  pub Respects-test :
      (p : S → Bool) (m n : Run S A)
      → Respects R m
      → Respects R n
      → Respects R (λ s. if p s then m s else n s)
  Respects-test p m n hm hn = record { at = λ s. by_test s (p s) }
    where
      by_test : (s : S) (b : Bool) → R s (if◌then◌else◌ {A = Result A × S} b (m s) (n s)).1
      by_test s true = hm.at s
      by_test s false = hn.at s

  -- A call that reads the state it starts in.
  pub Respects-reads : (f : S → Run S A) → ((s : S) → Respects R (f s)) → Respects R (λ s. f s s)
  Respects-reads f h = record { at = λ s. (h s).at s }

module _ {S A B : Type 0} {R : S → S → Type 0} where
  pub Respects-bind :
      IsPreorder R
      → (m : Run S A) (f : A → Run S B) → Respects R m
      → ((a : A) → Respects R (f a))
      → Respects R (m >>= f)
  Respects-bind p m f hm hf = record { at = λ s. after s (m s).0 (m s).1 (hm.at s) }
    where
      after :
          (s : S) (r : Result A) (s' : S)
          → R s s'
          → R s (elim r as (λ _. Result B × S) [ ok a ↦ f a s' | err e ↦ (err e, s') ]).1
      after s (ok a) s' h = p.chains s s' (f a s').1 h ((hf a).at s')
      after s (err e) s' h = h

-- What a call returns, if it returns.
abbrev pub OfResult : {S A : Type 0} → (A → Type 0) → Result A × S → Type 0
OfResult Q (ok a, s) = Q a
OfResult Q (err e, s) = Unit

pub record Yields {S A : Type 0} (Q : A → Type 0) (m : Run S A) : Type 0 where
  pub at : (s : S) → OfResult Q (m s)

-- The step that follows may rely on what the first one returns.
pub Respects-bind_where :
    {S A B : Type 0} {R : S → S → Type 0} {Q : A → Type 0}
    → IsPreorder R
    → (m : Run S A) (f : A → Run S B) → Respects R m
    → Yields Q m
    → ((a : A) → Q a → Respects R (f a))
    → Respects R (m >>= f)
Respects-bind_where {S} {A} {B} {R} {Q} p m f hm yields hf = record {
  at = λ s. after s (m s).0 (m s).1 (hm.at s) (yields.at s);
}
  where
    after :
        (s : S) (r : Result A) (s' : S)
        → R s s'
        → OfResult Q (r, s')
        → R s (elim r as (λ _. Result B × S) [ ok a ↦ f a s' | err e ↦ (err e, s') ]).1
    after s (ok a) s' h q = p.chains s s' (f a s').1 h ((hf a q).at s')
    after s (err e) s' h q = h

pub ruleset step_rules = (Respects-pure, Respects-raise, Respects-if, Respects-bind)
