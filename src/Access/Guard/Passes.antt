-- ===== src/Access/Guard/Passes.antt =====
-- Whoever may use a route passes the guard.
use mytrackr_backend.Prelude.{
  ℕ, ◌≡◌, refl, true, not, some, String, List, [], ◌∷◌, arith, all, inl, inr, Option-cases, if_both,
  if◌then◌else◌,
}
use mytrackr_backend.Payments.Store.{Store}
use mytrackr_backend.Payments.Status.{SubscriptionState, get_user_subscription_status}
use mytrackr_backend.Payments.Exec.{Result, ok}
use mytrackr_backend.Access.Entitlements.{plan_has_capability}
use mytrackr_backend.Access.Guard.{
  RequestUser, Requirements, is_admin, is_public, is_subscribed, missing_capabilities, is_empty,
  asks_capability, check_capabilities, check_any_plan, check_plans, check, can_activate,
  check_listed_capabilities, check_listed_plans,
}
use mytrackr_backend.Access.Guard.Entitled.{IsEntitled}

missing_of_all :
    (st : SubscriptionState) (cs : List String)
    → all (plan_has_capability st.active_plan) cs ≡ true
    → is_empty (missing_capabilities st cs) ≡ true
missing_of_all st [] h = refl
missing_of_all st (c ∷ cs) h = ground (arith, missing_of_all st cs)

capabilities_pass :
    (cs : List String) (st : SubscriptionState) (s : Store)
    → all (plan_has_capability st.active_plan) cs ≡ true
    → (not (is_empty cs) ≡ true → is_subscribed st ≡ true)
    → check_capabilities cs st s ≡ (ok tt, s)
unfolding check_capabilities
capabilities_pass [] st s able subscribed = refl
capabilities_pass (c ∷ cs) st s able subscribed =
    simp (subscribed refl, missing_of_all st (c ∷ cs) able)

listed_capabilities_pass :
    (q : Requirements) (st : SubscriptionState) (s : Store)
    → IsEntitled q st
    → check_listed_capabilities q.capabilities st s ≡ (ok tt, s)
listed_capabilities_pass q st s h = elim (Option-cases q.capabilities) [
  | inl free ↦ rw free refl
  | inr (cs, e) ↦
      rw e
        (capabilities_pass cs st s (h.capable cs e) (λ some_asked. h.subscribed (rw e some_asked)))
]

listed_plans_pass :
    (q : Requirements) (st : SubscriptionState) (s : Store)
    → IsEntitled q st
    → (check_listed_plans (asks_capability q) q.plans st s).0 ≡ ok tt
unfolding check_plans check_any_plan
listed_plans_pass q st s h = elim (Option-cases q.plans) [
  | inl free ↦ rw free refl
  | inr ([], e) ↦ (let (subscribed, rank) = h.any_plan e in rw e (simp (subscribed, rank)))
  | inr (p ∷ ps, e) ↦ rw e (simp (h.ranked p ps e))
]

-- A user whose status allows what a route asks for passes its guard, whether the user is an
-- administrator or not and whether the route is public or not.
pub can_activate_entitled :
    (now : ℕ) (q : Requirements) (u : RequestUser) (s : Store)
    → IsEntitled q (get_user_subscription_status u.id now s).0
    → (can_activate now q (some u) s).0 ≡ ok tt
unfolding can_activate check
can_activate_entitled now q u s h =
    let (st, s') = get_user_subscription_status u.id now s in
    let checked : (check q st s').0 ≡ ok tt =
      simp (listed_capabilities_pass q st s' h, check) (listed_plans_pass q st s' h) in
    if_both (λ (r : Result (Unit {0}) × Store). r.0 ≡ ok tt) (is_public q) (ok tt, s)
      (if is_admin u then (ok tt, s) else check q st s') (λ _. refl)
      (λ _.
        if_both (λ (r : Result (Unit {0}) × Store). r.0 ≡ ok tt) (is_admin u) (ok tt, s)
          (check q st s') (λ _. refl) (λ _. checked))
