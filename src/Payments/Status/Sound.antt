-- ===== src/Payments/Status/Sound.antt =====
-- Reading a status and activating a queued plan keep the invariant of the table.
use mathlib.Core.List.{Memᴰ}
use mathlib.Core.List.Memᴰ
use mytrackr_backend.Prelude.{
  ℕ, ◌+◌, ◌≤◌, ◌≡◌, ◌≢◌, ◌⊎◌, inl, inr, refl, sym, ◌∙◌, ap, true, false, Option, none, some, List,
  [], ◌∷◌, arith, ◌==◌, count, map, any, Option-cases, Bool-cases, ==_iff,
}
use mytrackr_backend.Payments.Entities.{Subscription}
use mytrackr_backend.Payments.Store.{
  Store, active_of, scheduled_of, save, find_latest, find_earliest, find_subscription_by_id,
}
use mytrackr_backend.Payments.Store.Rows.{
  NoId, any-mem, eq_of_id, find_by_id-mem, find_by_id-some, map-free, map-replace, UniqueIds,
  count-replace, find_latest-some, find_latest-none, find_earliest-some,
}
use mytrackr_backend.Payments.Store.Sound.{IsSound, save-IsSound, save_tame-IsSound, weight}
use mytrackr_backend.Payments.Status.{
  activate_row, is_due_record, activate_record, activate_next, activate_scheduled_if_due,
  set_past_due, due_of, ended_before,
}

-- An id is either free or that of a row.
row_of_id :
    (k : ℕ) (rows : List Subscription)
    → NoId k rows ⊎ ((r : Subscription) × Memᴰ r rows × (r.id ≡ k))
row_of_id k [] = inl tt
row_of_id k (x ∷ rows) = elim (Bool-cases (x.id == k)) [
  | inl same ↦ inr (x, Memᴰ.head refl, (==_iff x.id k).0 same)
  | inr other ↦ elim (row_of_id k rows) [
    | inl free ↦ inl (ground arith, free)
    | inr (r, m, e) ↦ inr (r, Memᴰ.tail m, e)
  ]
]

activate_row_other : (k now : ℕ) (x : Subscription) → x.id ≢ k → activate_row k now x ≡ x
unfolding activate_row
activate_row_other k now x h = ground arith

pub user-activate_row : (k now : ℕ) (x : Subscription) → (activate_row k now x).user ≡ x.user
unfolding activate_row
user-activate_row k now x = ground arith

pub id-activate_row : (k now : ℕ) (x : Subscription) → (activate_row k now x).id ≡ x.id
unfolding activate_row
id-activate_row k now x = ground arith

map-activate_row_none :
    (k now : ℕ) (rows : List Subscription)
    → any (is_due_record k now) rows ≡ false
    → map (activate_row k now) rows ≡ rows
unfolding activate_row
map-activate_row_none k now [] h = refl
map-activate_row_none k now (x ∷ rows) h = ground (arith, map-activate_row_none k now rows)

-- The store after the update query, whether or not it found a row.
activate_record_store :
    (k now : ℕ) (s : Store)
    → (activate_record k now s).1
      ≡ record s { subscriptions = map (activate_row k now) s.subscriptions }
unfolding activate_record
activate_record_store k now s = elim (Bool-cases (any (is_due_record k now) s.subscriptions)) [
  | inl hit ↦ rw hit
  | inr miss ↦ rw miss (rw (map-activate_row_none k now s.subscriptions miss))
]

-- The query leaves the table alone, or writes over the row with the id.
pub activate_record-cases :
    (k now : ℕ) (s : Store)
    → UniqueIds s.subscriptions
    → ((activate_record k now s).1 ≡ s)
      ⊎ ((r : Subscription) × Memᴰ r s.subscriptions
          × (r.id ≡ k)
          × ((activate_record k now s).1 ≡ save (activate_row k now r) s))
unfolding save
activate_record-cases k now s u = elim (row_of_id k s.subscriptions) [
  | inl free ↦ inl (
      rw activate_record_store
        (rw (map-free (activate_row k now) k (activate_row_other k now) s.subscriptions free)))
  | inr (r, m, e) ↦ inr (
    r,
    m,
    e,
    rw activate_record_store (
        rw (
          map-replace (activate_row k now) k (activate_row_other k now) s.subscriptions r u m e
            (id-activate_row k now r ∙ e))),
  )
]

module _ (k now u : ℕ) (r : Subscription) where
  active-activate_row :
      (n : ℕ)
      → n ≤ 1
      → (r.user ≡ u → n ≡ 0)
      → n + weight (active_of u (activate_row k now r)) ≤ 1 + weight (active_of u r)
  unfolding activate_row
  active-activate_row n h free = ground arith

  scheduled-activate_row :
      weight (scheduled_of u (activate_row k now r)) ≤ weight (scheduled_of u r)
  unfolding activate_row
  scheduled-activate_row = ground arith

-- A row that is activated when its user has no active row keeps the invariant.
pub activate_record-IsSound :
    (k now : ℕ) (s : Store)
    → IsSound s
    → ((r : Subscription)
        → Memᴰ r s.subscriptions
        → r.id ≡ k
        → count (active_of r.user) s.subscriptions ≡ 0)
    → IsSound (activate_record k now s).1
activate_record-IsSound k now s h free = elim (activate_record-cases k now s h.unique) [
  | inl same ↦ rw same h
  | inr (r, m, e, written) ↦ rw written (
      save-IsSound s r (activate_row k now r) h m (sym (id-activate_row k now r))
        (λ u. active-activate_row k now u r _ (h.one_active u) (λ q. rw q at (free r m e)))
        (λ u. omega (arith, h.one_scheduled u, scheduled-activate_row k now u r)))
]

-- What the search for a running subscription gives, with the table that it leaves.
pub record IsSettled (u now : ℕ) (found : Option Subscription) (s : Store) : Type 0 where
  pub sound : IsSound s
  pub verdict :
      ((r : Subscription) × (found ≡ some r) × Memᴰ r s.subscriptions × (active_of u r ≡ true))
      ⊎ ((found ≡ none) × (count (active_of u) s.subscriptions ≡ 0))

user_of_active : (u : ℕ) (r : Subscription) → active_of u r ≡ true → r.user ≡ u
user_of_active u r h = ground arith

user_of_due : (u now : ℕ) (r : Subscription) → due_of u now r ≡ true → r.user ≡ u
user_of_due u now r h = ground arith

due-activated :
    (u now : ℕ) (r : Subscription)
    → due_of u now r ≡ true
    → (is_due_record r.id now r ≡ true) × (active_of u (activate_row r.id now r) ≡ true)
unfolding activate_row
due-activated u now r h = ground arith

activate_record_hit :
    (k now : ℕ) (s : Store)
    → any (is_due_record k now) s.subscriptions ≡ true
    → (activate_record k now s).0
      ≡ find_subscription_by_id k (map (activate_row k now) s.subscriptions)
unfolding activate_record
activate_record_hit k now s hit = rw hit

module _ (u now : ℕ) (s : Store) (h : IsSound s)
    (none_active : count (active_of u) s.subscriptions ≡ 0) where
  activate_record-IsSettled :
      (r : Subscription)
      → Memᴰ r s.subscriptions
      → due_of u now r ≡ true
      → IsSettled u now (activate_record r.id now s).0 (activate_record r.id now s).1
  activate_record-IsSettled r m due =
      let f = activate_row r.id now in
      let rows = map f s.subscriptions in
      let (hit, act) = due-activated u now r due in
      let sound = activate_record-IsSound r.id now s h (λ x mx e.
        rw (eq_of_id s.subscriptions x r h.unique mx m e, user_of_due u now r due) none_active) in
      let unique : UniqueIds rows = (rw activate_record_store at sound.unique) in
      let found =
        activate_record_hit r.id now s (any-mem (is_due_record r.id now) s.subscriptions r m hit) in
      let mf : Memᴰ (f r) rows = Memᴰ.map f m in
      let (t, ft) = find_by_id-mem r.id rows (f r) mf (id-activate_row r.id now r) in
      let (mt, et) = find_by_id-some r.id rows t ft in
      let same = eq_of_id rows t (f r) unique mt mf (et ∙ sym (id-activate_row r.id now r)) in
      record {
        sound = sound;
        verdict = inl (t, found ∙ ft, rw activate_record_store mt, rw same act);
      }

  pub activate_next-IsSettled : IsSettled u now (activate_next u now s).0 (activate_next u now s).1
  unfolding activate_next
  activate_next-IsSettled = elim (Option-cases (find_earliest (due_of u now) s.subscriptions)) [
    | inl none_due ↦
        rw (none_due, activate_next) (record { sound = h; verdict = inr (refl, none_active) })
    | inr (r, found) ↦
        let (m, due) = find_earliest-some (due_of u now) s.subscriptions r found in
        rw (found, activate_next) (activate_record-IsSettled r m due)
  ]

set_past_due_inactive : (u : ℕ) (a : Subscription) → weight (active_of u (set_past_due a)) ≡ 0
set_past_due_inactive u a = ground arith

set_past_due_weights :
    (u : ℕ) (a : Subscription)
    → (weight (active_of u (set_past_due a)) ≤ weight (active_of u a))
      × (weight (scheduled_of u (set_past_due a)) ≤ weight (scheduled_of u a))
set_past_due_weights u a = ground arith

-- Marking the active row past due leaves no active row.
pub set_past_due-IsSound :
    (u : ℕ) (s : Store) (a : Subscription)
    → IsSound s
    → Memᴰ a s.subscriptions
    → active_of u a ≡ true
    → IsSound (save (set_past_due a) s)
      × (count (active_of u) (save (set_past_due a) s).subscriptions ≡ 0)
unfolding save
set_past_due-IsSound u s a h m act = (
  save_tame-IsSound s a (set_past_due a) h m refl (λ v. (set_past_due_weights v a).0)
      (λ v. (set_past_due_weights v a).1),
  omega (
    arith,
    count-replace (active_of u) s.subscriptions a (set_past_due a) h.unique m refl,
    h.one_active u,
    set_past_due_inactive u a,
    ap weight act,
  ),
)

pub activate_scheduled_if_due-IsSettled :
    (u now : ℕ) (s : Store)
    → IsSound s
    → IsSettled u now (activate_scheduled_if_due u now s).0 (activate_scheduled_if_due u now s).1
unfolding activate_scheduled_if_due
activate_scheduled_if_due-IsSettled u now s h =
    elim (Option-cases (find_latest (active_of u) s.subscriptions)) [
      | inl missing ↦
          rw (missing, activate_scheduled_if_due)
            (activate_next-IsSettled u now s h
              (find_latest-none (active_of u) s.subscriptions missing))
      | inr (a, found) ↦
          let (m, act) = find_latest-some (active_of u) s.subscriptions a found in
          let (sound, idle) = set_past_due-IsSound u s a h m act in
          elim (Bool-cases (ended_before now a)) [
            | inl over ↦
                rw (found, activate_scheduled_if_due, over)
                  (activate_next-IsSettled u now (save (set_past_due a) s) sound idle)
            | inr running ↦
                rw (found, activate_scheduled_if_due, running)
                  (record { sound = h; verdict = inl (a, refl, m, act) })
          ]
    ]
