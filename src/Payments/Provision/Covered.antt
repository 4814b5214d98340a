-- ===== src/Payments/Provision/Covered.antt =====
-- Rows that stay through writes, and the time that a user has.
use mathlib.Core.List.{Memᴰ}
use mathlib.Core.List.Memᴰ
use mytrackr_backend.Prelude.{
  ℕ, ◌+◌, ◌*◌, ◌≤◌, ◌≡◌, ◌≢◌, sym, ◌∙◌, refl, Bool, true, some, arith, String, if◌then◌else◌,
}
use mytrackr_backend.Calendar.{ms_per_day}
use mytrackr_backend.Calendar.Periods.{add_year_bounds, add_month_bounds, add_days_lem}
use mytrackr_backend.Payments.Entities.{Subscription, active, scheduled}
use mytrackr_backend.Payments.Store.{Store, active_of, scheduled_of, save, insert}
use mytrackr_backend.Payments.Store.Rows.{eq_of_id, mem-replace, mem-replace_other}
use mytrackr_backend.Payments.Store.Sound.{IsSound}
use mytrackr_backend.Payments.Status.{runs_past}
use mytrackr_backend.Payments.Gateway.{Codes}
use mytrackr_backend.Payments.Provision.{Purchase, new_row, calculate_period_end, end_of}

pub mem-insert :
    (now : ℕ) (r : Subscription) (s : Store)
    → Memᴰ (record r { id = s.next_id; created_at = now }) (insert now r s).subscriptions
unfolding insert
mem-insert now r s = Memᴰ.append_right s.subscriptions (Memᴰ.head refl)

pub mem-insert_old :
    (now : ℕ) (r x : Subscription) (s : Store)
    → Memᴰ x s.subscriptions
    → Memᴰ x (insert now r s).subscriptions
unfolding insert
mem-insert_old now r x s m = Memᴰ.append_left _ m

pub mem-save :
    (s : Store) (old new : Subscription)
    → Memᴰ old s.subscriptions
    → old.id ≡ new.id
    → Memᴰ new (save new s).subscriptions
unfolding save
mem-save s old new m e = mem-replace s.subscriptions old new m e

-- Writing over a row with another status leaves a row of a sound table alone.
pub mem-save_other :
    (s : Store) (x old new : Subscription)
    → IsSound s
    → Memᴰ x s.subscriptions
    → Memᴰ old s.subscriptions
    → old.id ≡ new.id
    → x ≢ old
    → Memᴰ x (save new s).subscriptions
unfolding save
mem-save_other s x old new h m n e ne =
    mem-replace_other s.subscriptions x new m
      (λ q. ne (eq_of_id s.subscriptions x old h.unique m n (q ∙ sym e)))

-- The user has an active subscription that ends after the instant.
pub record IsCovered (u now : ℕ) (s : Store) : Type 0 where
  pub row : Subscription
  pub stored : Memᴰ row s.subscriptions
  pub is_active : active_of u row ≡ true
  pub runs : runs_past now row ≡ true

-- Whatever the interval is called, a period is 28 to 366 days long.
pub calculate_period_end_bounds :
    (start : ℕ) (interval : String)
    → (start + 28 * ms_per_day ≤ calculate_period_end start interval)
      × (calculate_period_end start interval ≤ start + 366 * ms_per_day)
unfolding calculate_period_end
calculate_period_end_bounds start interval =
    ground (arith, add_year_bounds start, add_month_bounds start, add_days_lem 30 start)

-- A period runs past its start.
pub runs_past_period :
    (now start : ℕ) (interval : String) (r : Subscription)
    → now ≤ start
    → r.current_period_end ≡ some (calculate_period_end start interval)
    → runs_past now r ≡ true
runs_past_period now start interval r h e =
    rw e (ground (arith, calculate_period_end_bounds start interval))

pub scheduled_new_row :
    (p : Purchase) (start : ℕ) (codes : Codes)
    → scheduled_of p.user (new_row p scheduled start codes) ≡ true
scheduled_new_row p start codes = ground arith

pub now_le_start :
    (now : ℕ) (a : Subscription) (up : Bool)
    → runs_past now a ≡ true
    → now ≤ (if up then now else end_of a)
now_le_start now a up runs = ground arith

pub user_new_row :
    (u : ℕ) (p : Purchase) (start : ℕ) (codes : Codes)
    → active_of p.user (new_row p active start codes) ≡ true
user_new_row u p start codes = ground arith

pub active_ne_scheduled :
    (u : ℕ) (a q : Subscription) → active_of u a ≡ true → scheduled_of u q ≡ true → a ≢ q
active_ne_scheduled u a q act sch e = let sch' : scheduled_of u a ≡ true = rw e sch in ground arith
