-- ===== src/Access/Guard.antt =====
-- src/common/access-control/guards/plan.guard.ts: the guard of the routes that need a plan or a
-- capability.
pub mod Entitled
pub mod Passes
mod Tests
use Prim.Native.String.{◌++◌ as ◌<>◌}
use mytrackr_backend.Prelude.{
  ℕ, Bool, true, false, ◌&&◌, ◌||◌, not, Option, none, some, String, List, [], ◌∷◌, str_eq, any,
  keep, is_some, if◌then◌else◌,
}
use mytrackr_backend.Payments.Entities.{Plan}
use mytrackr_backend.Payments.Store.{Store}
use mytrackr_backend.Payments.Status.{SubscriptionState, get_user_subscription_status}
use mytrackr_backend.Payments.Exec.{Exec, ok, ◌>>=◌, ◌>>◌, pure, throw, run, forbidden}
use mytrackr_backend.Access.Entitlements.{plan_has_access, plan_has_capability}

-- The user of a request, with the names of the roles if they are an array
pub record RequestUser : Type 0 where
  pub id : ℕ
  pub roles : Option (List String)

abbrev pub is_admin : RequestUser → Bool
is_admin u = elim u.roles [
  | none ↦ false
  | some roles ↦ any (λ r. str_eq r "Super Admin" || str_eq r "Admin") roles
]

-- What the decorators of a route ask for; `none` where there is no decorator
pub record Requirements : Type 0 where
  pub plans : Option (List String)
  pub capabilities : Option (List String)

abbrev pub is_public : Requirements → Bool
is_public q = elim q.plans [
  | none ↦ not (is_some q.capabilities)
  | some plans ↦ any (λ p. str_eq p "PUBLIC") plans
]

-- join(', ')
unfoldable pub join : List String → String
join [] = ""
join (x ∷ []) = x
join (x ∷ y ∷ rest) = x <> (", " <> join (y ∷ rest))

abbrev pub is_subscribed : SubscriptionState → Bool
is_subscribed st = st.has_active_subscription && is_some st.active_plan

abbrev pub missing_capabilities : SubscriptionState → List String → List String
missing_capabilities st = keep (λ c. not (plan_has_capability st.active_plan c))

abbrev pub is_empty : List String → Bool
is_empty [] = true
is_empty (x ∷ xs) = false

-- requiredCapabilities?.length
abbrev pub asks_capability : Requirements → Bool
asks_capability q = elim q.capabilities [ none ↦ false | some cs ↦ not (is_empty cs) ]

unfoldable pub check_capabilities : List String → SubscriptionState → Exec (Unit {0})
check_capabilities [] st = pure tt
check_capabilities (c ∷ cs) st =
    if is_subscribed st
    then (if is_empty (missing_capabilities st (c ∷ cs))
        then pure tt
        else throw (
            forbidden (
              "Your subscription plan does not include: "
              <> join (missing_capabilities st (c ∷ cs)))))
    else throw (forbidden "This feature requires an active subscription plan.")

-- A route that asks for a plan without naming one
unfoldable pub check_any_plan : (asks_capability : Bool) → SubscriptionState → Exec (Unit {0})
check_any_plan asks st =
    if is_subscribed st
    then (if asks || plan_has_access st.active_plan "pro"
        then pure tt
        else throw (forbidden "This feature requires a Pro plan."))
    else throw (forbidden "This feature requires an active subscription plan.")

unfoldable pub check_plans :
    (asks_capability : Bool) → List String → SubscriptionState → Exec (Unit {0})
check_plans asks [] st = check_any_plan asks st
check_plans asks (p ∷ ps) st =
    if any (plan_has_access st.active_plan) (p ∷ ps)
    then pure tt
    else throw (forbidden ("This feature requires one of the following plans: " <> join (p ∷ ps)))

abbrev pub check_listed_capabilities : Option (List String) → SubscriptionState → Exec (Unit {0})
check_listed_capabilities none st = pure tt
check_listed_capabilities (some cs) st = check_capabilities cs st

abbrev pub check_listed_plans :
    (asks_capability : Bool) → Option (List String) → SubscriptionState → Exec (Unit {0})
check_listed_plans asks none st = pure tt
check_listed_plans asks (some ps) st = check_plans asks ps st

-- The checks on the status of a user
unfoldable pub check : Requirements → SubscriptionState → Exec (Unit {0})
check q st = do
  check_listed_capabilities q.capabilities st
  check_listed_plans (asks_capability q) q.plans st

-- canActivate
unfoldable pub can_activate : (now : ℕ) → Requirements → Option RequestUser → Exec (Unit {0})
can_activate now q user s = if is_public q then (ok tt, s) else elim user [
  | none ↦ throw (forbidden "User not authenticated") s
  | some u ↦
      if is_admin u then (ok tt, s) else (run (get_user_subscription_status u.id now) >>= check q) s
]
