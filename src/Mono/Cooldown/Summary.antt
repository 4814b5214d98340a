-- ===== src/Mono/Cooldown/Summary.antt =====
-- The summary of the cooldown against the accounts.

use mytrackr_backend.Prelude.{
  ℕ, ◌≤◌, ◌≡◌, ◌∙◌, sym, refl, inl, inr, Bool, true, Option, none, some, List, [], ◌∷◌, map, all,
  All, All-map, is_some, ltb, arith, Bool-cases, if◌then◌else◌, if_both,
}
use mytrackr_backend.Mono.Cooldown.{
  SyncedAccount, AccountTransactionCooldown, timing, remaining, refreshes_before, earliest_from,
  earliest, remaining_of, all_active, build_transaction_sync_cooldown,
}

-- The seconds that are left follow from the next refresh, are at most an hour's, and are the reason
-- to wait.
record IsTiming (now : ℕ) (t : AccountTransactionCooldown) : Type 0 where
  pub from_next : t.remaining_seconds ≡ remaining now t.next_refresh_at
  pub within : t.remaining_seconds ≤ 3600
  pub waits : t.is_active ≡ ltb 0 t.remaining_seconds

timing-IsTiming : (now : ℕ) (a : SyncedAccount) → IsTiming now (timing now a)
unfolding timing
timing-IsTiming now a = record { from_next = refl; within = ground arith; waits = refl }

timings-IsTiming :
    (now : ℕ) (accounts : List SyncedAccount) → All (IsTiming now) (map (timing now) accounts)
timings-IsTiming now [] = tt
timings-IsTiming now (a ∷ rest) = (timing-IsTiming now a, timings-IsTiming now rest)

abbrev HasNext : AccountTransactionCooldown → Type 0
HasNext t = is_some t.next_refresh_at ≡ true

-- The first of two accounts to refresh has the fewer seconds left.
refreshes_before_lem :
    (now : ℕ) (a b : AccountTransactionCooldown)
    → IsTiming now a
    → IsTiming now b
    → HasNext a
    → HasNext b
    → let c = if refreshes_before a b then a else b in
      IsTiming now c
      × HasNext c
      × (c.remaining_seconds ≤ a.remaining_seconds)
      × (c.remaining_seconds ≤ b.remaining_seconds)
refreshes_before_lem now a b ta tb ha hb =
    if_both
      (λ (c : AccountTransactionCooldown).
        IsTiming now c
        × HasNext c
        × (c.remaining_seconds ≤ a.remaining_seconds)
        × (c.remaining_seconds ≤ b.remaining_seconds))
      (refreshes_before a b) a b (λ e. (ta, ha, omega arith, ground arith))
      (λ e. (tb, hb, ground arith, omega arith))

earliest_from_lem :
    (now : ℕ) (a : AccountTransactionCooldown) (rest : List AccountTransactionCooldown)
    → All (IsTiming now) (a ∷ rest)
    → All HasNext (a ∷ rest)
    → let c = earliest_from a rest in
      ((P : AccountTransactionCooldown → Type 0) → All P (a ∷ rest) → P c)
      × All
          (λ (t : AccountTransactionCooldown). c.remaining_seconds ≤ t.remaining_seconds)
          (a ∷ rest)
unfolding earliest_from
earliest_from_lem now a [] ts hs = (λ P h. h.0, (omega arith, tt))
earliest_from_lem now a (b ∷ rest) (ta, (tb, ts)) (ha, (hb, hs)) =
    let c = if refreshes_before a b then a else b in
    let (tc, hc, ca, cb) = refreshes_before_lem now a b ta tb ha hb in
    let (one, (dc, least)) = earliest_from_lem now c rest (tc, ts) (hc, hs) in
    (
      λ P (pa, (pb, ps)). one P (if_both P (refreshes_before a b) a b (λ _. pa) (λ _. pb), ps),
      (omega (arith, dc, ca), (omega (arith, dc, cb), least)),
    )

all_lem :
    (p : AccountTransactionCooldown → Bool) (ts : List AccountTransactionCooldown)
    → (all p ts ≡ true → All (λ (t : AccountTransactionCooldown). p t ≡ true) ts)
      × (All (λ (t : AccountTransactionCooldown). p t ≡ true) ts → all p ts ≡ true)
all_lem p [] = (λ _. tt, λ _. refl)
all_lem p (t ∷ ts) =
    let (to, from) = all_lem p ts in
    (λ h. (ground arith, to (ground arith)), λ (h, hs). let hs' = from hs in ground arith)

active_next :
    (now : ℕ) (ts : List AccountTransactionCooldown)
    → All (IsTiming now) ts
    → all (λ (t : AccountTransactionCooldown). t.is_active) ts ≡ true
    → all (λ (t : AccountTransactionCooldown). is_some t.next_refresh_at) ts ≡ true
active_next now [] h e = refl
active_next now (t ∷ ts) (h, hs) e = let rest = active_next now ts hs (ground arith) in ground arith

-- An account that has as long to wait as one that waits is waiting too.
wait_as_long :
    (now : ℕ) (c : AccountTransactionCooldown) (ts : List AccountTransactionCooldown)
    → All (IsTiming now) ts
    → ltb 0 c.remaining_seconds ≡ true
    → All (λ (t : AccountTransactionCooldown). c.remaining_seconds ≤ t.remaining_seconds) ts
    → All (λ (t : AccountTransactionCooldown). t.is_active ≡ true) ts
wait_as_long now c [] h e k = tt
wait_as_long now c (t ∷ ts) (h, hs) e (k, ks) =
    (h.waits ∙ ground arith, wait_as_long now c ts hs e ks)

abbrev Summarises : List AccountTransactionCooldown → Option AccountTransactionCooldown → Type 0
Summarises ts o =
    (all_active ts ≡ ltb 0 (remaining_of o))
    × All (λ (t : AccountTransactionCooldown). remaining_of o ≤ t.remaining_seconds) ts

at_least_0 :
    (ts : List AccountTransactionCooldown)
    → All (λ (t : AccountTransactionCooldown). 0 ≤ t.remaining_seconds) ts
at_least_0 [] = tt
at_least_0 (t ∷ ts) = (omega arith, at_least_0 ts)

earliest_lem :
    (now : ℕ) (ts : List AccountTransactionCooldown)
    → All (IsTiming now) ts
    → Summarises ts (earliest ts)
unfolding earliest
earliest_lem now [] h = (refl, tt)
earliest_lem now (a ∷ rest) h =
    let next = λ (t : AccountTransactionCooldown). is_some t.next_refresh_at in
    let wait = λ (t : AccountTransactionCooldown). t.is_active in
    let c = earliest_from a rest in
    if_both (Summarises (a ∷ rest)) (all next (a ∷ rest)) (some c) none
      (λ every.
        let (one, least) = earliest_from_lem now a rest h ((all_lem next (a ∷ rest)).0 every) in
        let tc = one (IsTiming now) h in
        (
          elim (Bool-cases (all wait (a ∷ rest))) [
            | inl e ↦
                e ∙ sym (one (λ t. t.is_active ≡ true) ((all_lem wait (a ∷ rest)).0 e)) ∙ tc.waits
            | inr e ↦ elim (Bool-cases (ltb 0 c.remaining_seconds)) [
              | inl positive ↦
                  let waiting =
                    (all_lem wait (a ∷ rest)).1 (wait_as_long now c (a ∷ rest) h positive least) in
                  cc
              | inr zero_left ↦ e ∙ sym zero_left
            ]
          ],
          least,
        ))
      (λ some_without. (
        elim (Bool-cases (all wait (a ∷ rest))) [
          | inl e ↦ let others = active_next now (a ∷ rest) h e in cc
          | inr e ↦ e
        ],
        at_least_0 (a ∷ rest),
      ))

-- The summary is active exactly when it has seconds left, and it never has more than an account has:
-- an account may be synchronised as soon as the summary's seconds are over. No account waits for
-- more than an hour.
pub build_transaction_sync_cooldown_summary :
    (accounts : List SyncedAccount) (now : ℕ)
    → let s = build_transaction_sync_cooldown accounts now in
      (s.is_active ≡ ltb 0 s.remaining_seconds)
      × All
          (λ (t : AccountTransactionCooldown). s.remaining_seconds ≤ t.remaining_seconds)
          s.accounts
      × All (λ (t : AccountTransactionCooldown). t.remaining_seconds ≤ 3600) s.accounts
unfolding build_transaction_sync_cooldown
build_transaction_sync_cooldown_summary accounts now =
    let ts = map (timing now) accounts in
    let timed = timings-IsTiming now accounts in
    let (active, least) = earliest_lem now ts timed in
    (active, least, All-map (λ t (h : IsTiming now t). h.within) ts timed)
