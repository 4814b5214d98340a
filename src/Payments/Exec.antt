-- ===== src/Payments/Exec.antt =====
-- Requests that read and write the store and may throw. What was written before a throw stays
-- written: the program uses no database transaction here.
pub mod Keeps
pub mod Returns
use mytrackr_backend.Prelude.{
  String, Bool, true, false, Option, none, some, ◌≡◌, refl, ◌⊎◌, inl, inr,
}
use mytrackr_backend.Payments.Store.{Store}

-- The exceptions of the program, and those of a gateway call that fails and of a
-- field read from null.
pub data Failure : Type 0 where
  bad_request : String → Failure
  not_found : String → Failure
  forbidden : String → Failure
  gateway_failure : Failure
  type_error : Failure

pub data Result {ℓ} (A : Type ℓ) : Type ℓ where
  ok : A → Result A
  thrown : Failure → Result A

abbrev pub Exec : Type 0 → Type 0
Exec A = Store → Result A × Store

infixl 5 ◌>>=◌ ◌>>◌
abbrev continue : {A B : Type 0} → Result A → (A → Exec B) → Exec B
continue (ok a) f s = f a s
continue (thrown e) f s = (thrown e, s)

abbrev pub ◌>>=◌ : {A B : Type 0} → Exec A → (A → Exec B) → Exec B
◌>>=◌ m f s = let (r, s') = m s in continue r f s'

abbrev pub ◌>>◌ : {A B : Type 0} → Exec A → Exec B → Exec B
m >> n = m >>= λ _. n

abbrev pub pure : {A : Type 0} → A → Exec A
pure a s = (ok a, s)

abbrev pub throw : {A : Type 0} → Failure → Exec A
throw e s = (thrown e, s)

abbrev pub gets : {A : Type 0} → (Store → A) → Exec A
gets f s = (ok (f s), s)

abbrev pub modify : (Store → Store) → Exec (Unit {0})
modify f s = (ok tt, f s)

-- A step that cannot throw
abbrev pub run : {A : Type 0} → (Store → A × Store) → Exec A
run f s = let (a, s') = f s in (ok a, s')

-- throw unless the test holds
abbrev pub require : Bool → Failure → Exec (Unit {0})
require true e = pure tt
require false e = throw e

-- throw where a value is missing
abbrev pub require_some : {A : Type 0} → Option A → Failure → Exec A
require_some none e = throw e
require_some (some a) e = pure a

pub Result-cases :
    {A : Type 0} (r : Result A) → ((a : A) × (r ≡ ok a)) ⊎ ((e : Failure) × (r ≡ thrown e))
Result-cases (ok a) = inl (a, refl)
Result-cases (thrown e) = inr (e, refl)

-- Answering a constant changes no store.
pub store_bind_pure :
    {A B : Type 0} (m : Exec A) (b : B) (s : Store) → ((m >> pure b) s).1 ≡ (m s).1
store_bind_pure m b s = elim (Result-cases (m s).0) [
  | inl (a, done) ↦ rw done
  | inr (e, failed) ↦ rw failed
]
