-- ===== src/Payments/Checkout/Row.antt =====
-- The payment that a checkout stores.
use mytrackr_backend.Prelude.{
  ℕ, ◌<◌, ◌≡◌, refl, none, some, String, List, [], ◌∷◌, ◌++◌, arith, ltb, str_eq_refl, inl, inr,
  Option-cases, Bool-cases,
}
use mytrackr_backend.Payments.Entities.{Plan, Subscription, PaymentTransaction}
use mytrackr_backend.Payments.Store.{
  Store, find_payment, insert_payment, save, save_plan, find_latest, active_of,
}
use mytrackr_backend.Payments.Status.{plan_of}
use mytrackr_backend.Payments.Gateway.{Gateway}
use mytrackr_backend.Payments.Exec.{Result, ok, pure, ◌>>◌, modify}
use mytrackr_backend.Payments.Exec.Returns.{Returns, Returns-bind}
use mytrackr_backend.Payments.Provision.{answer}
use mytrackr_backend.Payments.Pricing.{
  Pricing, price_against, calculate_subscription_checkout_pricing,
}
use mytrackr_backend.Payments.Checkout.{
  Checkout, checkout, checkout_row, checkout_plan, check_plan, start_payment, pay_priced, pay_plan,
  register_and_pay, register_plan, create_plan,
}
use mytrackr_backend.Access.Entitlements.{get_plan_bank_account_limit}

find_payment-append :
    (xs : List PaymentTransaction) (tx : PaymentTransaction)
    → find_payment tx.reference xs ≡ none
    → find_payment tx.reference (xs ++ tx ∷ []) ≡ some tx
unfolding find_payment
find_payment-append [] tx h = rw (str_eq_refl tx.reference) refl
find_payment-append (x ∷ xs) tx h = ground (arith, find_payment-append xs tx)

price_against-payments :
    (now : ℕ) (plan : Plan) (a : Subscription) (s : Store)
    → (price_against now plan a s).1.payments ≡ s.payments
unfolding save
price_against-payments now plan a s = elim (Option-cases a.current_period_end) [
  | inl endless ↦ rw endless refl
  | inr (end_at, e) ↦ rw e (elim (Option-cases (plan_of s a)) [
    | inl gone ↦ rw gone (ground arith)
    | inr (current, known) ↦ rw known (ground arith)
  ])
]

pricing-payments :
    (user now : ℕ) (plan : Plan) (s : Store)
    → (calculate_subscription_checkout_pricing user now plan s).1.payments ≡ s.payments
unfolding calculate_subscription_checkout_pricing
pricing-payments user now plan s =
    elim (Option-cases (find_latest (active_of user) s.subscriptions)) [
      | inl gone ↦ rw (gone, calculate_subscription_checkout_pricing) refl
      | inr (a, found) ↦
          rw (found, calculate_subscription_checkout_pricing) (price_against-payments now plan a s)
    ]

-- Steps that leave the payments alone
abbrev Same : {A : Type 0} → Store → A → Store → Type 0
Same s a s' = s'.payments ≡ s.payments

register_plan-Returns :
    (g : Gateway) (plan : Plan) (s : Store)
    → Returns (λ p s'. (s'.payments ≡ s.payments) × (p.id ≡ plan.id)) (register_plan g plan) s
unfolding register_plan save_plan
register_plan-Returns g plan s = elim (Option-cases plan.gateway_plan_id) [
  | inr (code, e) ↦ rw (e, register_plan) (λ p h. (refl, cc))
  | inl missing ↦
      rw (missing, register_plan)
        (Returns-bind (λ c s'. s'.payments ≡ s.payments)
          (λ p s'. (s'.payments ≡ s.payments) × (p.id ≡ plan.id)) (answer (create_plan g plan))
          (λ code.
            modify (save_plan (record plan { gateway_plan_id = some code }))
            >> pure (record plan { gateway_plan_id = some code }))
          s (λ c h. refl) (λ c s' same p h. (same, cc)))
]

check_plan-Returns :
    (bank : Result (Unit {0})) (plan : Plan) (s : Store)
    → Returns (λ _ s'. s' ≡ s) (check_plan bank plan) s
unfolding check_plan
check_plan-Returns bank plan s a h = elim (Bool-cases plan.is_active) [
  | inr off ↦ (let no = (simp off at h) in cc)
  | inl on ↦ elim (Bool-cases (ltb 0 plan.price)) [
    | inr gratis ↦ (let no = (simp (on, gratis) at h) in cc)
    | inl priced ↦ elim (Bool-cases (ltb 0 (get_plan_bank_account_limit (some plan)))) [
      | inl linked ↦ simp (on, priced, linked)
      | inr bare ↦ simp (on, priced, bare)
    ]
  ]
]

-- A pending payment of the user under the reference, for the plan and over the amount due
abbrev pub IsStored : (user : ℕ) → (reference : String) → (plan : ℕ) → Checkout → Store → Type 0
IsStored user reference k c s =
    (q : Plan) × (q.id ≡ k)
    × (find_payment reference s.payments ≡ some (checkout_row user reference q c.pricing))
    × (0 < c.pricing.amount_due)

module _ (g : Gateway) (now user : ℕ) (reference : String) (k : ℕ) where
  start_payment-IsStored :
      (plan : Plan) (pricing : Pricing) (s : Store)
      → plan.id ≡ k
      → 0 < pricing.amount_due
      → find_payment reference s.payments ≡ none
      → Returns (IsStored user reference k) (start_payment g user reference plan pricing) s
  unfolding start_payment insert_payment
  start_payment-IsStored plan pricing s e due free c h =
      elim (Option-cases (g.initialize_payment reference pricing.amount_due)) [
        | inl refused ↦ (let no = (simp refused at h) in cc)
        | inr ((url, ans), made) ↦
            let answered : ◌≡◌ {A = Result Checkout} (ok (checkout plan pricing (url, ans)))
                (ok c) =
              (simp made at h) in
            let priced : c.pricing ≡ pricing = cc in
            rw priced (
              simp made (
                plan,
                e,
                find_payment-append s.payments (checkout_row user reference plan pricing) free,
                due,
              ))
      ]

  pay_priced-IsStored :
      (plan : Plan) (pricing : Pricing) (s : Store)
      → plan.id ≡ k
      → find_payment reference s.payments ≡ none
      → Returns (IsStored user reference k) (pay_priced g user reference plan pricing) s
  unfolding pay_priced
  pay_priced-IsStored plan pricing s e free c h = elim (Bool-cases (ltb 0 pricing.amount_due)) [
    | inr nothing ↦ (let no = (simp nothing at h) in cc)
    | inl due ↦
        simp due (start_payment-IsStored plan pricing s e (ground arith) free c (simp due at h))
  ]

  pay_plan-IsStored :
      (plan : Plan) (s : Store)
      → plan.id ≡ k
      → find_payment reference s.payments ≡ none
      → Returns (IsStored user reference k) (pay_plan g now user reference plan) s
  unfolding pay_plan
  pay_plan-IsStored plan s e free c h =
      let (pricing, s') = calculate_subscription_checkout_pricing user now plan s in
      pay_priced-IsStored plan pricing s' e (rw pricing-payments free) c h

-- A checkout that returns, under a reference that no payment has, has stored a payment under that
-- reference: pending, owned by the user, for the plan, and over the amount due, which is more
-- than 0.
pub checkout_plan-IsStored :
    (g : Gateway) (now user : ℕ) (reference : String) (bank : Result (Unit {0})) (plan : Plan)
    (s : Store) (c : Checkout)
    → find_payment reference s.payments ≡ none
    → (checkout_plan g now user reference bank plan s).0 ≡ ok c
    → IsStored user reference plan.id c (checkout_plan g now user reference bank plan s).1
unfolding checkout_plan register_and_pay
checkout_plan-IsStored g now user reference bank plan s c free =
    Returns-bind (λ _ s'. s' ≡ s) (IsStored user reference plan.id) (check_plan bank plan)
      (λ _. register_and_pay g now user reference plan) s (check_plan-Returns bank plan s)
      (λ _ s1 same.
        Returns-bind (λ p s'. (s'.payments ≡ s1.payments) × (p.id ≡ plan.id))
          (IsStored user reference plan.id) (register_plan g plan) (pay_plan g now user reference)
          s1 (register_plan-Returns g plan s1)
          (λ p s2 (kept, e).
            pay_plan-IsStored g now user reference plan.id p s2 e (rw (kept, same) free)))
      c
