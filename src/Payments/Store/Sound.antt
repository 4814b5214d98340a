-- ===== src/Payments/Store/Sound.antt =====
-- The invariant of the subscriptions table, and when a write keeps it.
use mathlib.Core.List.{Memᴰ}
use mytrackr_backend.Prelude.{
  ℕ, ◌+◌, ◌≤◌, ◌<◌, ◌≡◌, refl, Bool, List, [], ◌∷◌, ◌++◌, arith, ◌==◌, count, count-append, All,
  if◌then◌else◌,
}
use mytrackr_backend.Payments.Entities.{Subscription}
use mytrackr_backend.Payments.Store.{Store, active_of, scheduled_of, replace, save, insert}
use mytrackr_backend.Payments.Store.Rows.{NoId, UniqueIds, count-replace}

-- Ids are unique and below the next one, and no user has two active or two queued subscriptions.
pub record IsSound (s : Store) : Type 0 where
  pub unique : UniqueIds s.subscriptions
  pub below : All (λ r. r.id < s.next_id) s.subscriptions
  pub one_active : (u : ℕ) → count (active_of u) s.subscriptions ≤ 1
  pub one_scheduled : (u : ℕ) → count (scheduled_of u) s.subscriptions ≤ 1

NoId-replace :
    (k : ℕ) (r : Subscription) (rows : List Subscription) → NoId k rows → NoId k (replace r rows)
unfolding replace
NoId-replace k r [] h = tt
NoId-replace k r (x ∷ rows) (h, hs) = (ground arith, NoId-replace k r rows hs)

id_kept : (x r : Subscription) → (if x.id == r.id then r else x).id ≡ x.id
id_kept x r = ground arith

UniqueIds-replace :
    (r : Subscription) (rows : List Subscription) → UniqueIds rows → UniqueIds (replace r rows)
unfolding replace
UniqueIds-replace r [] h = tt
UniqueIds-replace r (x ∷ rows) (h, hs) =
    (rw (id_kept x r) (NoId-replace x.id r rows h), UniqueIds-replace r rows hs)

below-replace :
    (n : ℕ) (r : Subscription) (rows : List Subscription)
    → All (λ x. x.id < n) rows
    → All (λ x. x.id < n) (replace r rows)
unfolding replace
below-replace n r [] h = tt
below-replace n r (x ∷ rows) (h, hs) = (ground arith, below-replace n r rows hs)

-- What a row adds to a count.
abbrev pub weight : Bool → ℕ
weight b = if b then 1 else 0

-- Writing over a row keeps the invariant if the counts stay within their bounds.
pub save-IsSound :
    (s : Store) (old new : Subscription)
    → IsSound s
    → Memᴰ old s.subscriptions
    → old.id ≡ new.id
    → ((u : ℕ)
        → count (active_of u) s.subscriptions + weight (active_of u new)
          ≤ 1 + weight (active_of u old))
    → ((u : ℕ)
        → count (scheduled_of u) s.subscriptions + weight (scheduled_of u new)
          ≤ 1 + weight (scheduled_of u old))
    → IsSound (save new s)
unfolding save
save-IsSound s old new h m e act sch = record {
  unique = UniqueIds-replace new s.subscriptions h.unique;
  below = below-replace s.next_id new s.subscriptions h.below;
  one_active =
      λ u. omega (arith, count-replace (active_of u) s.subscriptions old new h.unique m e, act u);
  one_scheduled = λ u.
      omega (arith, count-replace (scheduled_of u) s.subscriptions old new h.unique m e, sch u);
}

-- A write that makes no row active or queued keeps the invariant.
pub save_tame-IsSound :
    (s : Store) (old new : Subscription)
    → IsSound s
    → Memᴰ old s.subscriptions
    → old.id ≡ new.id
    → ((u : ℕ) → weight (active_of u new) ≤ weight (active_of u old))
    → ((u : ℕ) → weight (scheduled_of u new) ≤ weight (scheduled_of u old))
    → IsSound (save new s)
save_tame-IsSound s old new h m e act sch =
    save-IsSound s old new h m e (λ u. omega (arith, h.one_active u, act u))
      (λ u. omega (arith, h.one_scheduled u, sch u))

NoId-append :
    (k n : ℕ) (rows : List Subscription) (r : Subscription)
    → NoId k rows
    → k < n
    → n ≡ r.id
    → NoId k (rows ++ r ∷ [])
NoId-append k n [] r h l e = (omega arith, tt)
NoId-append k n (x ∷ rows) r (h, hs) l e = (h, NoId-append k n rows r hs l e)

UniqueIds-append :
    (n : ℕ) (rows : List Subscription) (r : Subscription)
    → UniqueIds rows
    → All (λ x. x.id < n) rows
    → n ≡ r.id
    → UniqueIds (rows ++ r ∷ [])
UniqueIds-append n [] r h b e = (tt, tt)
UniqueIds-append n (x ∷ rows) r (h, hs) (b, bs) e =
    (NoId-append x.id n rows r h b e, UniqueIds-append n rows r hs bs e)

below-append :
    (n : ℕ) (rows : List Subscription) (r : Subscription)
    → All (λ x. x.id < n) rows
    → n ≡ r.id
    → All (λ x. x.id < n + 1) (rows ++ r ∷ [])
below-append n [] r b e = (omega arith, tt)
below-append n (x ∷ rows) r (b, bs) e = (omega arith, below-append n rows r bs e)

-- A new row keeps the invariant if its user has no other row of its status.
pub insert-IsSound :
    (now : ℕ) (s : Store) (r : Subscription)
    → IsSound s
    → ((u : ℕ) → count (active_of u) s.subscriptions + weight (active_of u r) ≤ 1)
    → ((u : ℕ) → count (scheduled_of u) s.subscriptions + weight (scheduled_of u r) ≤ 1)
    → IsSound (insert now r s)
unfolding insert
insert-IsSound now s r h act sch = record {
  unique = UniqueIds-append s.next_id s.subscriptions _ h.unique h.below refl;
  below = below-append s.next_id s.subscriptions _ h.below refl;
  one_active = λ u. omega (
    arith,
    act u,
    count-append (active_of u) s.subscriptions
        ((record r { id = s.next_id; created_at = now }) ∷ []),
  );
  one_scheduled = λ u. omega (
    arith,
    sch u,
    count-append (scheduled_of u) s.subscriptions
        ((record r { id = s.next_id; created_at = now }) ∷ []),
  );
}
