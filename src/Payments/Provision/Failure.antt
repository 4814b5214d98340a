-- ===== src/Payments/Provision/Failure.antt =====
-- What an upgrade leaves behind when the old gateway subscription cannot be disabled.
use mathlib.Core.List.{Memᴰ}
use mytrackr_backend.Prelude.{ℕ, ◌≡◌, refl, true, false, Option, some, String, [], ◌∷◌, arith}
use mytrackr_backend.Payments.Entities.{Subscription, Plan}
use mytrackr_backend.Payments.Store.{Store, Call, save, find_latest, active_of}
use mytrackr_backend.Payments.Store.Rows.{find_latest-some, replace_self}
use mytrackr_backend.Payments.Store.Sound.{IsSound}
use mytrackr_backend.Payments.Status.{runs_past, plan_of}
use mytrackr_backend.Payments.Gateway.{Gateway, Codes}
use mytrackr_backend.Payments.Exec.{thrown, gateway_failure}
use mytrackr_backend.Payments.Provision.{
  Purchase, disable_gateway_subscription, upgrade, settle, provision_plan, same_plan, initial_codes,
  repair_paystack_subscription_code_from_lookup, log_calls,
}
use mytrackr_backend.Payments.Provision.Sound.{log_calls-IsSound}

repair_known :
    (g : Gateway) (plan : Option Plan) (a : Subscription) (code : String)
    → a.gateway_subscription_id ≡ some code
    → repair_paystack_subscription_code_from_lookup g plan a ≡ (a, [])
unfolding repair_paystack_subscription_code_from_lookup
repair_known g plan a code e = ground arith

disable_refused :
    (g : Gateway) (a : Subscription) (code token : String)
    → a.gateway_subscription_id ≡ some code
    → a.gateway_email_token ≡ some token
    → g.disable_subscription code token ≡ false
    → disable_gateway_subscription g a
      ≡ (thrown gateway_failure, Call.disable_subscription code token ∷ [])
unfolding disable_gateway_subscription
disable_refused g a code token ec et off = simp (ec, et, disable_gateway_subscription) (simp off)

upgrade_fails :
    (g : Gateway) (now : ℕ) (p : Purchase) (a : Subscription) (codes : Codes) (code token : String)
    (s : Store)
    → IsSound s
    → Memᴰ a s.subscriptions
    → a.gateway_subscription_id ≡ some code
    → a.gateway_email_token ≡ some token
    → g.disable_subscription code token ≡ false
    → ((upgrade g now p a codes s).0 ≡ thrown gateway_failure)
      × ((upgrade g now p a codes s).1.subscriptions ≡ s.subscriptions)
unfolding upgrade save
upgrade_fails g now p a codes code token s h m ec et off =
    simp (repair_known g (plan_of s a) a code ec, upgrade, disable_refused g a code token ec et off)
      (refl, replace_self s.subscriptions a h.unique m)

-- In a sound table, a prorated upgrade to another plan, from a running row whose gateway subscription
-- has its code and token but cannot be disabled, throws and leaves the table of subscriptions as it
-- was: the user keeps the old plan alone.
pub provision_plan_fails :
    (g : Gateway) (now : ℕ) (p : Purchase) (s : Store) (a : Subscription) (code token : String)
    → IsSound s
    → find_latest (active_of p.user) s.subscriptions ≡ some a
    → runs_past now a ≡ true
    → same_plan p a ≡ false
    → p.is_prorated_upgrade ≡ true
    → a.gateway_subscription_id ≡ some code
    → a.gateway_email_token ≡ some token
    → g.disable_subscription code token ≡ false
    → ((provision_plan g now p s).0 ≡ thrown gateway_failure)
      × ((provision_plan g now p s).1.subscriptions ≡ s.subscriptions)
unfolding provision_plan settle
provision_plan_fails g now p s a code token h found runs other up ec et off =
    let (m, act) = find_latest-some (active_of p.user) s.subscriptions a found in
    let (codes, calls) = initial_codes g p in
    rw (found, provision_plan)
      (simp (runs, other, up)
        (upgrade_fails g now p a codes code token (log_calls calls s) (log_calls-IsSound calls s h)
          m ec et off))
