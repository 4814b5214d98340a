-- ===== src/Access/Guard/Entitled.antt =====
-- Whom the guard lets through.
use mytrackr_backend.Prelude.{
  ℕ, ◌≡◌, refl, sym, Bool, ◌||◌, true, false, not, Option, none, some, String, List, [], ◌∷◌, arith,
  any, all, inl, inr,
}
use mytrackr_backend.Payments.Store.{Store}
use mytrackr_backend.Payments.Status.{SubscriptionState, get_user_subscription_status}
use mytrackr_backend.Payments.Exec.{Exec, Result, ok, thrown, ◌>>◌, Result-cases}
use mytrackr_backend.Access.Entitlements.{plan_has_access, plan_has_capability}
use mytrackr_backend.Access.Guard.{
  RequestUser, Requirements, is_admin, is_public, is_subscribed, missing_capabilities, is_empty,
  asks_capability, check_capabilities, check_any_plan, check_plans, check, can_activate,
  check_listed_capabilities, check_listed_plans,
}

-- The status allows what the requirements name.
pub record IsEntitled (q : Requirements) (st : SubscriptionState) : Type 0 where
  pub capable :
      (cs : List String)
      → q.capabilities ≡ some cs
      → all (plan_has_capability st.active_plan) cs ≡ true
  pub subscribed : asks_capability q ≡ true → is_subscribed st ≡ true
  pub ranked :
      (p : String) (ps : List String)
      → q.plans ≡ some (p ∷ ps)
      → any (plan_has_access st.active_plan) (p ∷ ps) ≡ true
  pub any_plan :
      q.plans ≡ some []
      → (is_subscribed st ≡ true)
        × ((asks_capability q || plan_has_access st.active_plan "pro") ≡ true)

all_of_missing :
    (st : SubscriptionState) (cs : List String)
    → is_empty (missing_capabilities st cs) ≡ true
    → all (plan_has_capability st.active_plan) cs ≡ true
all_of_missing st [] h = refl
all_of_missing st (c ∷ cs) h = ground (arith, all_of_missing st cs)

check_capabilities_ok :
    (cs : List String) (st : SubscriptionState) (s : Store)
    → (check_capabilities cs st s).0 ≡ ok tt
    → (all (plan_has_capability st.active_plan) cs ≡ true)
      × (not (is_empty cs) ≡ true → is_subscribed st ≡ true)
unfolding check_capabilities
check_capabilities_ok [] st s h = (refl, λ no. cc)
check_capabilities_ok (c ∷ cs) st s h = ground (arith, all_of_missing st (c ∷ cs))

check_plans_ok :
    (asks : Bool) (ps : List String) (st : SubscriptionState) (s : Store)
    → (check_plans asks ps st s).0 ≡ ok tt
    → (is_empty ps ≡ true
        → (is_subscribed st ≡ true) × ((asks || plan_has_access st.active_plan "pro") ≡ true))
      × (not (is_empty ps) ≡ true → any (plan_has_access st.active_plan) ps ≡ true)
unfolding check_plans check_any_plan
check_plans_ok asks [] st s h = ground arith
check_plans_ok asks (p ∷ ps) st s h = ground arith

both_ok :
    (m n : Exec (Unit {0})) (s : Store)
    → ((m >> n) s).0 ≡ ok tt
    → ((m s).0 ≡ ok tt) × ((n (m s).1).0 ≡ ok tt)
both_ok m n s h = elim (Result-cases (m s).0) [
  | inl (x, done) ↦ (done, (rw done at h))
  | inr (e, failed) ↦
      (let no : ◌≡◌ {A = Result (Unit {0})} (thrown e) (ok tt) = (rw failed at h) in cc)
]

module _ (st : SubscriptionState) (s : Store) where
  listed_capabilities_ok :
      (plans caps : Option (List String))
      → (check_listed_capabilities caps st s).0 ≡ ok tt
      → ((cs : List String) → caps ≡ some cs → all (plan_has_capability st.active_plan) cs ≡ true)
        × (asks_capability (record { plans = plans; capabilities = caps }) ≡ true
            → is_subscribed st ≡ true)
  listed_capabilities_ok plans none h = (λ cs e. cc, λ no. cc)
  listed_capabilities_ok plans (some ds) h =
      let (able, subscribed) = check_capabilities_ok ds st s h in
      (λ cs e. (let same : ds ≡ cs = cc in rw (sym same) able), subscribed)

  listed_plans_ok :
      (asks : Bool) (plans : Option (List String))
      → (check_listed_plans asks plans st s).0 ≡ ok tt
      → ((p : String) (ps : List String)
          → plans ≡ some (p ∷ ps)
          → any (plan_has_access st.active_plan) (p ∷ ps) ≡ true)
        × (plans ≡ some []
            → (is_subscribed st ≡ true) × ((asks || plan_has_access st.active_plan "pro") ≡ true))
  listed_plans_ok asks none h = (λ p ps e. cc, λ e. cc)
  listed_plans_ok asks (some ds) h =
      let (bare, ranked) = check_plans_ok asks ds st s h in
      (
        λ p ps e. (let same : ds ≡ p ∷ ps = cc in rw same at (ranked (rw same refl))),
        λ e. (let same : ds ≡ [] = cc in bare (rw same refl)),
      )

check-IsEntitled :
    (q : Requirements) (st : SubscriptionState) (s : Store)
    → (check q st s).0 ≡ ok tt
    → IsEntitled q st
unfolding check
check-IsEntitled q st s h =
    let m = check_listed_capabilities q.capabilities st in
    let (first, second) = both_ok m (check_listed_plans (asks_capability q) q.plans st) s h in
    let (capable, subscribed) = listed_capabilities_ok st s q.plans q.capabilities first in
    let (ranked, any_plan) = listed_plans_ok st (m s).1 (asks_capability q) q.plans second in
    record { capable = capable; subscribed = subscribed; ranked = ranked; any_plan = any_plan }

-- A request that the guard lets through to a route that is not public, from a user who is no
-- administrator, has a user whose status allows what the route asks for: every capability, one of
-- the plans that are named, and a subscription where a capability or an unnamed plan is asked for;
-- an unnamed plan without a capability means access to what the pro plan requires.
pub can_activate-IsEntitled :
    (now : ℕ) (q : Requirements) (u : RequestUser) (s : Store)
    → is_public q ≡ false
    → is_admin u ≡ false
    → (can_activate now q (some u) s).0 ≡ ok tt
    → IsEntitled q (get_user_subscription_status u.id now s).0
unfolding can_activate
can_activate-IsEntitled now q u s guarded plain passed =
    check-IsEntitled q (get_user_subscription_status u.id now s).0
      (get_user_subscription_status u.id now s).1 (simp (guarded, plain) at passed)
