-- ===== src/Payments/Provision/Sound.antt =====
-- Provisioning keeps the invariant of the table, on every branch and also where it throws.
use mathlib.Core.List.{Memᴰ}
use mytrackr_backend.Prelude.{
  ℕ, ◌+◌, ◌≤◌, ◌≡◌, ap, sym, refl, true, false, Option, List, count, arith,
}
use mytrackr_backend.Payments.Entities.{Subscription, Plan, active, scheduled}
use mytrackr_backend.Payments.Store.{Store, active_of, scheduled_of, save, insert, Call}
use mytrackr_backend.Payments.Store.Rows.{count-replace}
use mytrackr_backend.Payments.Store.Sound.{IsSound, weight, insert-IsSound, save_tame-IsSound}
use mytrackr_backend.Payments.Gateway.{Gateway, Codes}
use mytrackr_backend.Payments.Provision.{
  Purchase, log_calls, new_row, cancel_row, renewed_row, requeued_row,
  repair_paystack_subscription_code_from_lookup,
}

pub log_calls-IsSound : (cs : List Call) (s : Store) → IsSound s → IsSound (log_calls cs s)
log_calls-IsSound cs s h = record {
  unique = h.unique;
  below = h.below;
  one_active = h.one_active;
  one_scheduled = h.one_scheduled;
}

module _ (p : Purchase) (start : ℕ) (codes : Codes) (v n : ℕ) (h : n ≤ 1)
    (free : p.user ≡ v → n ≡ 0) where
  active-new_row : n + weight (active_of v (new_row p active start codes)) ≤ 1
  active-new_row = ground arith

  scheduled-new_row : n + weight (scheduled_of v (new_row p scheduled start codes)) ≤ 1
  scheduled-new_row = ground arith

module _ (p : Purchase) (start : ℕ) (codes : Codes) (v n : ℕ) (h : n ≤ 1) where
  active-new_row_queued : n + weight (active_of v (new_row p scheduled start codes)) ≤ 1
  active-new_row_queued = ground arith

  scheduled-new_row_active : n + weight (scheduled_of v (new_row p active start codes)) ≤ 1
  scheduled-new_row_active = ground arith

module _ (now : ℕ) (p : Purchase) (start : ℕ) (codes : Codes) (s : Store) (h : IsSound s) where
  -- A new active row is sound where its user has no active row.
  pub insert_active-IsSound :
      count (active_of p.user) s.subscriptions ≡ 0
      → IsSound (insert now (new_row p active start codes) s)
  insert_active-IsSound idle =
      insert-IsSound now s (new_row p active start codes) h
        (λ v. active-new_row p start codes v _ (h.one_active v) (λ e. rw e at idle))
        (λ v. scheduled-new_row_active p start codes v _ (h.one_scheduled v))

  pub insert_scheduled-IsSound :
      count (scheduled_of p.user) s.subscriptions ≡ 0
      → IsSound (insert now (new_row p scheduled start codes) s)
  insert_scheduled-IsSound idle =
      insert-IsSound now s (new_row p scheduled start codes) h
        (λ v. active-new_row_queued p start codes v _ (h.one_active v))
        (λ v. scheduled-new_row p start codes v _ (h.one_scheduled v) (λ e. rw e at idle))

-- A row written over one of its user, with weights that do not grow
abbrev pub Tame : Subscription → Subscription → Type 0
Tame old new =
    (old.id ≡ new.id)
    × ((v : ℕ) → weight (active_of v new) ≤ weight (active_of v old))
    × ((v : ℕ) → weight (scheduled_of v new) ≤ weight (scheduled_of v old))

pub save-IsSound_of_Tame :
    (s : Store) (old new : Subscription)
    → IsSound s
    → Memᴰ old s.subscriptions
    → Tame old new
    → IsSound (save new s)
save-IsSound_of_Tame s old new h m (e, act, sch) = save_tame-IsSound s old new h m e act sch

pub cancel_row-Tame : (now : ℕ) (a : Subscription) → Tame a (cancel_row now a)
cancel_row-Tame now a = (refl, λ v. ground arith, λ v. ground arith)

pub renewed_row-Tame :
    (now u : ℕ) (p : Purchase) (a : Subscription) (codes : Codes)
    → active_of u a ≡ true
    → Tame a (renewed_row now p a codes)
renewed_row-Tame now u p a codes act = (refl, λ v. ground arith, λ v. ground arith)

pub requeued_row-Tame :
    (p : Purchase) (a q : Subscription) (codes : Codes) → Tame q (requeued_row p a q codes)
requeued_row-Tame p a q codes = (refl, λ v. omega arith, λ v. omega arith)

-- A repaired row differs in its codes only.
pub repaired_same :
    (g : Gateway) (plan : Option Plan) (a : Subscription)
    → let r = (repair_paystack_subscription_code_from_lookup g plan a).0 in
      (r.id ≡ a.id) × (r.user ≡ a.user) × (r.status ≡ a.status)
unfolding repair_paystack_subscription_code_from_lookup
repaired_same g plan a = ground arith

pub Tame-repaired :
    (g : Gateway) (plan : Option Plan) (a : Subscription)
    → Tame a (repair_paystack_subscription_code_from_lookup g plan a).0
Tame-repaired g plan a =
    let (e, u, st) = repaired_same g plan a in
    (sym e, λ v. rw (u, st) (omega arith), λ v. rw (u, st) (omega arith))

-- Writing an inactive row over the active one leaves no active row.
pub idle-save :
    (u : ℕ) (s : Store) (old new : Subscription)
    → IsSound s
    → Memᴰ old s.subscriptions
    → old.id ≡ new.id
    → active_of u old ≡ true
    → active_of u new ≡ false
    → count (active_of u) (save new s).subscriptions ≡ 0
unfolding save
idle-save u s old new h m e act off = omega (
  arith,
  count-replace (active_of u) s.subscriptions old new h.unique m e,
  h.one_active u,
  ap weight act,
  ap weight off,
)
