-- ===== src/Payments/Exec/Keeps.antt =====
-- Invariants of requests: a rule for each way to build one. A request keeps a predicate of the store
-- whether it returns or throws.
use mytrackr_backend.Prelude.{Bool, if◌then◌else◌, if_both}
use mytrackr_backend.Payments.Store.{Store}
use mytrackr_backend.Payments.Exec.{Result, ok, thrown, Failure, Exec, ◌>>=◌, pure, throw, modify}

pub record Keeps {A : Type 0} (P : Store → Type 0) (m : Exec A) : Type 0 where
  pub at : (s : Store) → P s → P (m s).1

module _ {A : Type 0} {P : Store → Type 0} where
  pub Keeps-pure : (a : A) → Keeps P (pure a)
  Keeps-pure a = record { at = λ s h. h }

  pub Keeps-throw : (e : Failure) → Keeps {A = A} P (throw e)
  Keeps-throw e = record { at = λ s h. h }

  pub Keeps-if : (b : Bool) (m n : Exec A) → Keeps P m → Keeps P n → Keeps P (if b then m else n)
  Keeps-if b m n h k = if_both (Keeps P) b m n (λ _. h) (λ _. k)

pub Keeps-modify :
    {P : Store → Type 0} (f : Store → Store) → ((s : Store) → P s → P (f s)) → Keeps P (modify f)
Keeps-modify f h = record { at = h }

module _ {A B : Type 0} {P : Store → Type 0} where
  Keeps-after :
      (f : A → Exec B)
      → ((a : A) → Keeps P (f a))
      → (r : Result A) (s : Store) → P s
      → P (((λ (t : Store). (r, t)) >>= f) s).1
  Keeps-after f h (ok a) s p = (h a).at s p
  Keeps-after f h (thrown e) s p = p

  pub Keeps-bind :
      (m : Exec A) (f : A → Exec B) → Keeps P m → ((a : A) → Keeps P (f a)) → Keeps P (m >>= f)
  Keeps-bind m f h k = record { at = λ s p. let (r, s') = m s in Keeps-after f k r s' (h.at s p) }
