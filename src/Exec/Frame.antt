-- ===== src/Exec/Frame.antt =====
-- A method leaves one part of the store as it is: one rule for each way to build a method.
use distributed_job_queue_sc.Prelude.{
  String, Bool, true, false, ◌≡◌, refl, ◌∙◌, Option, none, some, if◌then◌else◌,
}
use distributed_job_queue_sc.Model.{Store}
use distributed_job_queue_sc.Exec.{
  Exec, Result, ok, err, Error, pure, raise, gets, or_fail, or_raise, or_type_error, continue,
  ◌>>=◌, ◌>>◌,
}

pub record Keeps {X : Type 0} (part : Store → X) {B : Type 0} (m : Exec B) : Type 0 where
  pub at : (s : Store) → part (m s).1 ≡ part s

module _ {X B : Type 0} {part : Store → X} where
  pub pure-Keeps : (b : B) → Keeps part (pure b)
  unfolding pure
  pure-Keeps b = record { at = λ s. refl }

  pub raise-Keeps : (e : Error) → Keeps part (raise {A = B} e)
  unfolding raise
  raise-Keeps e = record { at = λ s. refl }

  pub gets-Keeps : (f : Store → B) → Keeps part (gets f)
  unfolding gets
  gets-Keeps f = record { at = λ s. refl }

  pub or_fail-Keeps : (t : String) (o : Option B) → Keeps part (or_fail t o)
  unfolding or_fail
  or_fail-Keeps t none = raise-Keeps _
  or_fail-Keeps t (some b) = pure-Keeps b

  pub or_raise-Keeps : (t : String) (o : Option B) → Keeps part (or_raise t o)
  unfolding or_raise
  or_raise-Keeps t none = raise-Keeps _
  or_raise-Keeps t (some b) = pure-Keeps b

  pub or_type_error-Keeps : (o : Option B) → Keeps part (or_type_error o)
  unfolding or_type_error
  or_type_error-Keeps none = raise-Keeps _
  or_type_error-Keeps (some b) = pure-Keeps b

  pub if-Keeps :
      (b : Bool) (m n : Exec B) → Keeps part m → Keeps part n → Keeps part (if b then m else n)
  if-Keeps true m n p q = p
  if-Keeps false m n p q = q

module _ {X B C : Type 0} {part : Store → X} where
  continue-Keeps :
      (f : B → Exec C) (r : Result B) → ((b : B) → Keeps part (f b)) → Keeps part (continue f r)
  continue-Keeps f (ok b) q = q b
  continue-Keeps f (err e) q = record { at = λ s. refl }

  pub bind-Keeps :
      (m : Exec B) (f : B → Exec C)
      → Keeps part m
      → ((b : B) → Keeps part (f b))
      → Keeps part (m >>= f)
  unfolding ◌>>=◌
  bind-Keeps m f p q = record { at = λ s. (continue-Keeps f (m s).0 q).at (m s).1 ∙ p.at s }

  pub then-Keeps : (m : Exec B) (n : Exec C) → Keeps part m → Keeps part n → Keeps part (m >> n)
  unfolding ◌>>◌
  then-Keeps m n p q = record {
    at = λ s. (continue-Keeps (λ _. n) (m s).0 (λ _. q)).at (m s).1 ∙ p.at s;
  }

pub ruleset keeps_rules = (
  pure-Keeps, raise-Keeps, gets-Keeps, or_fail-Keeps, or_raise-Keeps, or_type_error-Keeps, if-Keeps,
  bind-Keeps, then-Keeps,
)
