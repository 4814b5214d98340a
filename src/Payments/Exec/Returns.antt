-- ===== src/Payments/Exec/Returns.antt =====
-- What holds of the result and of the store of a request that returns.
use mytrackr_backend.Prelude.{◌≡◌, refl, inl, inr, Bool, true, false}
use mytrackr_backend.Payments.Store.{Store}
use mytrackr_backend.Payments.Exec.{Exec, Result, Failure, ok, thrown, ◌>>=◌, require, Result-cases}

abbrev pub Returns : {A : Type 0} → (A → Store → Type 0) → Exec A → Store → Type 0
Returns {A} P m s = (a : A) → (m s).0 ≡ ok a → P a (m s).1

pub Returns-bind :
    {A B : Type 0} (Q : A → Store → Type 0) (P : B → Store → Type 0) (m : Exec A) (f : A → Exec B)
    (s : Store)
    → Returns Q m s
    → ((a : A) (s' : Store) → Q a s' → Returns P (f a) s')
    → Returns P (m >>= f) s
Returns-bind {A} {B} Q P m f s q k b h = elim (Result-cases (m s).0) [
  | inl (a, e) ↦ rw e (k a (m s).1 (q a e) b (rw e at h))
  | inr (x, e) ↦ (let no : ◌≡◌ {A = Result B} (thrown x) (ok b) = (rw e at h) in cc)
]

-- A requirement that is passed holds, and changes nothing.
pub Returns-require :
    (b : Bool) (e : Failure) (s : Store) → Returns (λ u s'. (b ≡ true) × (s' ≡ s)) (require b e) s
Returns-require true e s a h = (refl, refl)
Returns-require false e s a h = cc
