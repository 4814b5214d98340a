-- ===== src/Payments/Worker/Sound.antt =====
-- A round of the worker keeps the invariant of the table.
use mathlib.Core.List.{Memᴰ}
use mytrackr_backend.Prelude.{
  ℕ, ◌≡◌, ◌∙◌, sym, ap, refl, inl, inr, Bool, ◌&&◌, String, List, [], ◌∷◌, count, keep, All,
  All-map, Bool-cases, Option-cases, if_both,
}
use mytrackr_backend.Payments.Entities.{Subscription, is_scheduled}
use mytrackr_backend.Payments.Store.{Store, active_of, save, find_latest, starts_before}
use mytrackr_backend.Payments.Store.Rows.{
  eq_of_id, mem-replace_cases, find_latest-some, find_latest-none,
}
use mytrackr_backend.Payments.Store.Sound.{IsSound}
use mytrackr_backend.Payments.Status.{
  set_past_due, activate_record, activate_row, runs_past, starts_by,
}
use mytrackr_backend.Payments.Status.Sound.{
  set_past_due-IsSound, activate_record-IsSound, activate_record-cases, id-activate_row,
  user-activate_row,
}
use mytrackr_backend.Payments.Worker.{
  insert_by_start, sort_by_start, due_rows, process_row, process_rows, process_due, Lock,
  process_scheduled_subscriptions, acquire_lock, release_lock,
}

-- Whoever has the id of a row that was read earlier has its user.
abbrev Agrees : Store → Subscription → Type 0
Agrees s r = (x : Subscription) → Memᴰ x s.subscriptions → x.id ≡ r.id → x.user ≡ r.user

save-Agrees :
    (s : Store) (old new r : Subscription)
    → Memᴰ old s.subscriptions
    → new.id ≡ old.id
    → new.user ≡ old.user
    → Agrees s r
    → Agrees (save new s) r
unfolding save
save-Agrees s old new r m e u h x mx q = elim (mem-replace_cases s.subscriptions x new mx) [
  | inl same ↦ rw same (u ∙ h old m (sym e ∙ ap (λ (t : Subscription). t.id) (sym same) ∙ q))
  | inr kept ↦ h x kept q
]

activate_record-Agrees :
    (k now : ℕ) (s : Store) (r : Subscription)
    → IsSound s
    → Agrees s r
    → Agrees (activate_record k now s).1 r
activate_record-Agrees k now s r h agrees = elim (activate_record-cases k now s h.unique) [
  | inl same ↦ rw same agrees
  | inr (a, m, e, written) ↦ rw written (
      save-Agrees s a (activate_row k now a) r m (id-activate_row k now a)
        (user-activate_row k now a) agrees)
]

-- Activation of a row that was read earlier, when its user has no active row
activate_read-IsSound :
    (now : ℕ) (r : Subscription) (s : Store)
    → IsSound s
    → Agrees s r
    → count (active_of r.user) s.subscriptions ≡ 0
    → IsSound (activate_record r.id now s).1
activate_read-IsSound now r s h agrees idle =
    activate_record-IsSound r.id now s h (λ x m e. rw (agrees x m e) idle)

process_row-keeps :
    (now : ℕ) (r : Subscription) (s : Store)
    → IsSound s
    → Agrees s r
    → IsSound (process_row now r s)
      × ((q : Subscription) → Agrees s q → Agrees (process_row now r s) q)
unfolding process_row
process_row-keeps now r s h agrees =
    elim (Option-cases (find_latest (active_of r.user) s.subscriptions)) [
      | inl free ↦
          rw (free, process_row)
            (
              activate_read-IsSound now r s h agrees
                  (find_latest-none (active_of r.user) s.subscriptions free),
              λ q hq. activate_record-Agrees r.id now s q h hq,
            )
      | inr (a, found) ↦
          let (m, act) = find_latest-some (active_of r.user) s.subscriptions a found in
          let (sound, idle) = set_past_due-IsSound r.user s a h m act in
          let s' = save (set_past_due a) s in
          elim (Bool-cases (runs_past now a)) [
            | inl runs ↦ rw (found, process_row, runs) (h, λ q hq. hq)
            | inr over ↦
                rw (found, process_row, over)
                  (
                    activate_read-IsSound now r s' sound
                        (save-Agrees s a (set_past_due a) r m refl refl agrees) idle,
                    λ q hq.
                        activate_record-Agrees r.id now s' q sound
                          (save-Agrees s a (set_past_due a) q m refl refl hq),
                  )
          ]
    ]

process_rows-IsSound :
    (now : ℕ) (rows : List Subscription) (s : Store)
    → IsSound s
    → All (Agrees s) rows
    → IsSound (process_rows now rows s)
unfolding process_rows
process_rows-IsSound now [] s h agrees = h
process_rows-IsSound now (r ∷ rows) s h (here, later) =
    let (sound, keeps) = process_row-keeps now r s h here in
    process_rows-IsSound now rows (process_row now r s) sound (All-map keeps rows later)

All-insert_by_start :
    (P : Subscription → Type 0) (r : Subscription) (rows : List Subscription)
    → P r
    → All P rows
    → All P (insert_by_start r rows)
unfolding insert_by_start
All-insert_by_start P r [] h k = (h, tt)
All-insert_by_start P r (x ∷ rows) h (k, ks) =
    if_both (All P) (starts_before r.current_period_start x.current_period_start) (r ∷ x ∷ rows)
      (x ∷ insert_by_start r rows) (λ _. (h, (k, ks))) (λ _. (k, All-insert_by_start P r rows h ks))

All-sort_by_start :
    (P : Subscription → Type 0) (rows : List Subscription) → All P rows → All P (sort_by_start rows)
unfolding sort_by_start
All-sort_by_start P [] h = tt
All-sort_by_start P (x ∷ rows) (h, hs) =
    All-insert_by_start P x (sort_by_start rows) h (All-sort_by_start P rows hs)

All-keep :
    (P : Subscription → Type 0) (p : Subscription → Bool) (rows : List Subscription)
    → All P rows
    → All P (keep p rows)
All-keep P p [] h = tt
All-keep P p (x ∷ rows) (h, hs) =
    if_both (All P) (p x) (x ∷ keep p rows) (keep p rows) (λ _. (h, All-keep P p rows hs))
      (λ _. All-keep P p rows hs)

All-mem :
    (P : Subscription → Type 0) (rows : List Subscription)
    → ((x : Subscription) → Memᴰ x rows → P x)
    → All P rows
All-mem P [] h = tt
All-mem P (x ∷ rows) h = (h x (Memᴰ.head refl), All-mem P rows (λ y m. h y (Memᴰ.tail m)))

-- A round of the worker keeps the invariant, whatever it finds due.
pub process_due-IsSound : (now : ℕ) (s : Store) → IsSound s → IsSound (process_due now s)
unfolding process_due due_rows
process_due-IsSound now s h = process_rows-IsSound now (due_rows now s) s h (
    All-sort_by_start (Agrees s) _ (
      All-keep (Agrees s) (λ r. is_scheduled r.status && starts_by now r) s.subscriptions
        (All-mem (Agrees s) s.subscriptions (λ r m x n e.
          ap (λ (t : Subscription). t.user) (eq_of_id s.subscriptions x r h.unique n m e)))))

pub process_scheduled_subscriptions-IsSound :
    (owner : String) (now : ℕ) (lock : Lock) (s : Store)
    → IsSound s
    → IsSound (process_scheduled_subscriptions owner now (lock, s)).1
unfolding process_scheduled_subscriptions
process_scheduled_subscriptions-IsSound owner now lock s h =
    let (acquired, held) = acquire_lock owner now lock in
    if_both (λ (x : Lock × Store). IsSound x.1) acquired
      (release_lock owner held, process_due now s) (held, s) (λ _. process_due-IsSound now s h)
      (λ _. h)
