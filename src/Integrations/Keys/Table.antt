-- ===== src/Integrations/Keys/Table.antt =====
-- Rows of integrations that are looked up and saved, and what leaves them as they are.
use mathlib.Core.Path.{subst}
use mytrackr_backend.Prelude.{
  ℕ, ◌∙◌, Option, none, any, Option-cases, ◌≡◌, refl, Bool, true, false, some, List, [], ◌∷◌, ◌==◌,
  arith, All, Bool-cases, inl, inr, if_both,
}
use mytrackr_backend.Payments.Entities.{Integration, Subscription}
use mytrackr_backend.Payments.Store.{
  Store, replace_integration, find_latest, find_earliest, active_of, save,
}
use mytrackr_backend.Payments.Status.{
  due_of, ended_before, set_past_due, is_due_record, activate_record, activate_next,
  activate_scheduled_if_due, report, get_user_subscription_status,
}
use mytrackr_backend.Integrations.Keys.{find_integration}

-- A row that is found passes the test, and has what every row has.
pub find_integration-eq-some :
    (p : Integration → Bool) (P : Integration → Type 0) (is : List Integration) (i : Integration)
    → All P is
    → find_integration p is ≡ some i
    → (p i ≡ true) × P i
unfolding find_integration
find_integration-eq-some p P [] i h found = cc
find_integration-eq-some p P (j ∷ js) i (first, rest) found = elim (Bool-cases (p j)) [
  | inl yes_j ↦
      let e' : some j ≡ some i = rw yes_j at found in
      let e : j ≡ i = cc in subst (λ x. (p x ≡ true) × P x) e (yes_j, first)
  | inr not_j ↦ find_integration-eq-some p P js i rest (rw not_j at found)
]

clash : (i r : Integration) → (i.id == r.id) ≡ false → i.id ≡ r.id → ⊥
clash i r h e = ground arith

-- After a save, each row with the saved row's id is the saved row.
pub replace_integration_self :
    (r : Integration) (is : List Integration)
    → All (λ i. i.id ≡ r.id → i ≡ r) (replace_integration r is)
unfolding replace_integration
replace_integration_self r [] = tt
replace_integration_self r (i ∷ is) = (
  if_both (λ (x : Integration). x.id ≡ r.id → x ≡ r) (i.id == r.id) r i (λ _ _. refl)
      (λ differs same. absurd (clash i r differs same)),
  replace_integration_self r is,
)

-- Reading a status leaves the integrations as they are.
abbrev Keeps : {A : Type 0} → Store → A × Store → Type 0
Keeps s r = r.1.integrations ≡ s.integrations

save-Keeps : (r : Subscription) (s : Store) → (save r s).integrations ≡ s.integrations
unfolding save
save-Keeps r s = refl

activate_record-Keeps : (id now : ℕ) (s : Store) → Keeps s (activate_record id now s)
unfolding activate_record
activate_record-Keeps id now s =
    if_both (Keeps s) (any (is_due_record id now) s.subscriptions) _ _ (λ _. refl) (λ _. refl)

activate_next-Keeps : (u now : ℕ) (s : Store) → Keeps s (activate_next u now s)
unfolding activate_next
activate_next-Keeps u now s = elim (Option-cases (find_earliest (due_of u now) s.subscriptions)) [
  | inl none_due ↦ rw (none_due, activate_next) refl
  | inr (r, due) ↦ rw (due, activate_next) (activate_record-Keeps r.id now s)
]

activate_scheduled_if_due-Keeps :
    (u now : ℕ) (s : Store) → Keeps s (activate_scheduled_if_due u now s)
unfolding activate_scheduled_if_due
activate_scheduled_if_due-Keeps u now s =
    elim (Option-cases (find_latest (active_of u) s.subscriptions)) [
      | inl missing ↦ rw (missing, activate_scheduled_if_due) (activate_next-Keeps u now s)
      | inr (a, found) ↦
          rw (found, activate_scheduled_if_due)
            (if_both (Keeps s) (ended_before now a) _ _
              (λ _.
                activate_next-Keeps u now (save (set_past_due a) s) ∙ save-Keeps (set_past_due a) s)
              (λ _. refl))
    ]

report-Keeps : (now : ℕ) (r : Option Subscription) (s : Store) → Keeps s (report now r s)
unfolding report
report-Keeps now none s = refl
report-Keeps now (some r) s =
    if_both (Keeps s) (ended_before now r) _ _ (λ _. save-Keeps (set_past_due r) s) (λ _. refl)

pub get_user_subscription_status-integrations :
    (u now : ℕ) (s : Store) → (get_user_subscription_status u now s).1.integrations ≡ s.integrations
unfolding get_user_subscription_status
get_user_subscription_status-integrations u now s =
    let (found, s') = activate_scheduled_if_due u now s in
    report-Keeps now found s' ∙ activate_scheduled_if_due-Keeps u now s
