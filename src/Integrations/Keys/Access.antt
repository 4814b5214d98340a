-- ===== src/Integrations/Keys/Access.antt =====
-- Who gets in with an API key.
use mathlib.Core.Path.{subst}
use mytrackr_backend.Prelude.{
  ℕ, ◌≡◌, ◌≢◌, refl, sym, ◌∙◌, ap, Bool, true, false, some, String, List, [], ◌∷◌, arith, str_eq,
  str_eq_iff, All, All-map, Bool-cases, Option-cases, inl, inr,
}
use mytrackr_backend.Prelude.Codes.{Codes, codes, starts_with}
use mytrackr_backend.Payments.Store.{Store, replace_integration}
use mytrackr_backend.Payments.Status.{get_user_subscription_status}
use mytrackr_backend.Payments.Entities.{Integration}
use mytrackr_backend.Integrations.Keys.{
  Partners, Outside, KeyError, Result, ok, thrown, find_integration, generate_secret_key, owned_by,
  find_owned_integration, is_paid, set_key, rotate_api_key, set_revoked, revoke,
}
use mytrackr_backend.Integrations.Keys.Requests.{
  allows, user_has_capability, has_prefix, set_used, period_over, use_integration,
  check_integration, authenticate_api_key,
}
use mytrackr_backend.Integrations.Keys.Table.{
  find_integration-eq-some, replace_integration_self, get_user_subscription_status-integrations,
}

-- What a request that gets in has shown: a stored row, in use, whose hash is that of the key, that is
-- paid and not over, of a user whose subscription has the capability; the answer is this row, and
-- only its time of use changes.
pub record IsAllowed (o : Outside) (key : Codes) (s : Partners) (i : Integration) (s' : Partners)
    (r : Integration) : Type 0 where
  pub stored : find_integration (has_prefix key) s.store.integrations ≡ some r
  pub hashed : o.hash key ≡ r.api_key_hash
  pub paid : is_paid r.billing_status ≡ true
  pub running : period_over o.world.now r ≡ false
  pub capable :
      allows (get_user_subscription_status r.user o.world.now s.store).0 "website_linking" ≡ true
  pub answer : i ≡ set_used o.world.now r
  pub rows :
      s'.store.integrations ≡ replace_integration (set_used o.world.now r) s.store.integrations
  pub logs : s'.logs ≡ s.logs

user_has_capability_lem :
    (u now : ℕ) (c : String) (store : Store)
    → (user_has_capability u now c store).0 ≡ allows (get_user_subscription_status u now store).0 c
unfolding user_has_capability
user_has_capability_lem u now c store = refl

user_has_capability-integrations :
    (u now : ℕ) (c : String) (store : Store)
    → (user_has_capability u now c store).1.integrations ≡ store.integrations
unfolding user_has_capability
user_has_capability-integrations u now c store =
    get_user_subscription_status-integrations u now store

abbrev Used : ℕ → Integration → Bool × Store → Partners → Integration → Partners → Type 0
Used now r b s i s' =
    (b.0 ≡ true)
    × (i ≡ set_used now r)
    × (s'.store.integrations ≡ replace_integration (set_used now r) b.1.integrations)
    × (s'.logs ≡ s.logs)

ok_inj : (a i : Integration) → ok a ≡ ok i → a ≡ i
ok_inj a i h = cc

not_ok : {A : Type 0} {e : KeyError} {a : A} → ◌≡◌ {A = Result A} (thrown e) (ok a) → ⊥
not_ok h = cc

not_thrown :
    {e : KeyError} {s s' : Partners} {i : Integration}
    → ◌≡◌ {A = Result Integration × Partners} (thrown e, s) (ok i, s')
    → ⊥
not_thrown h = not_ok (ap (λ p. p.0) h)

use_integration_ok :
    (now : ℕ) (r : Integration) (b : Bool × Store) (s s' : Partners) (i : Integration)
    → use_integration now r b s ≡ (ok i, s')
    → Used now r b s i s'
use_integration_ok now r (false, store) s s' i h = absurd (not_thrown h)
use_integration_ok now r (true, store) s s' i h = (
  refl,
  sym (ok_inj (set_used now r) i (ap (λ p. p.0) h)),
  ap (λ p. p.1.store.integrations) (sym h),
  ap (λ p. p.1.logs) (sym h),
)

check_integration_ok :
    (now : ℕ) (r : Integration) (s s' : Partners) (i : Integration)
    → check_integration now r s ≡ (ok i, s')
    → (is_paid r.billing_status ≡ true)
      × (period_over now r ≡ false)
      × Used now r (user_has_capability r.user now "website_linking" s.store) s i s'
check_integration_ok now r s s' i h = elim (Bool-cases (is_paid r.billing_status)) [
  | inr unpaid ↦ absurd (not_thrown (rw (unpaid, check_integration) at h))
  | inl paid ↦ elim (Bool-cases (period_over now r)) [
    | inl over ↦ absurd (not_thrown (rw over at (rw (paid, check_integration) at h)))
    | inr running ↦ (
      paid,
      running,
      use_integration_ok now r (user_has_capability r.user now "website_linking" s.store) s s' i
          (rw running at (rw (paid, check_integration) at h)),
    )
  ]
]

-- A request that gets in with a key is allowed to: a row in use is found by the prefix of the key, has
-- the hash of the key, is paid and not over, and its user's subscription has the capability of website
-- linking; the answer is this row with the time of its use, and nothing else of the integrations and
-- of the log changes.
pub authenticate_api_key-IsAllowed :
    (o : Outside) (key : Codes) (s s' : Partners) (i : Integration)
    → authenticate_api_key o key s ≡ (ok i, s')
    → (r : Integration) × IsAllowed o key s i s' r
unfolding authenticate_api_key
authenticate_api_key-IsAllowed o key s s' i h =
    elim (Bool-cases (starts_with (codes "mt_sk_") key)) [
      | inr wrong ↦ absurd (not_thrown (rw (wrong, authenticate_api_key) at h))
      | inl started ↦ elim (Option-cases (find_integration (has_prefix key) s.store.integrations)) [
        | inl missing ↦
            absurd (not_thrown (rw missing at (rw (started, authenticate_api_key) at h)))
        | inr (r, found) ↦ elim (Bool-cases (str_eq (o.hash key) r.api_key_hash)) [
          | inr differs ↦
              absurd
                (not_thrown (rw differs at (rw found at (rw (started, authenticate_api_key) at h))))
          | inl same ↦
              let (paid, running, (capable, answer, rows, logs)) =
                check_integration_ok o.world.now r s s' i
                  (rw same at (rw found at (rw (started, authenticate_api_key) at h))) in
              (
                r,
                record {
                  stored = found;
                  hashed = (str_eq_iff (o.hash key) r.api_key_hash).0 same;
                  paid = paid;
                  running = running;
                  capable =
                      sym (user_has_capability_lem r.user o.world.now "website_linking" s.store)
                      ∙ capable;
                  answer = answer;
                  rows =
                      rows
                      ∙ ap (replace_integration (set_used o.world.now r)) (
                          user_has_capability-integrations r.user o.world.now "website_linking"
                            s.store);
                  logs = logs;
                },
              )
        ]
      ]
    ]

-- What is so of the saved row is so of each row with its id.
saved_rows :
    (Q : Integration → Type 0) (k : ℕ) (r : Integration) (is : List Integration)
    → r.id ≡ k
    → Q r
    → All (λ i. i.id ≡ k → Q i) (replace_integration r is)
saved_rows Q k r is e q =
    All-map {P = λ i. i.id ≡ r.id → i ≡ r} {Q = λ i. i.id ≡ k → Q i}
      (λ i h same. subst Q (sym (h (same ∙ sym e))) q) (replace_integration r is)
      (replace_integration_self r is)

owned : (u k : ℕ) (i : Integration) → owned_by u k i ≡ true → i.id ≡ k
owned u k i h = ground arith

units_of : (is : List Integration) → All (λ _. Unit {0}) is
units_of [] = tt
units_of (i ∷ is) = (tt, units_of is)

owned_id :
    (u k : ℕ) (s : Partners) (i : Integration) → find_owned_integration u k s ≡ some i → i.id ≡ k
unfolding find_owned_integration
owned_id u k s i found =
    owned u k i
      (find_integration-eq-some (owned_by u k) (λ _. Unit {0}) s.store.integrations i
        (units_of s.store.integrations) found).0

revoke_rows :
    (o : Outside) (u k : ℕ) (s s' : Partners)
    → revoke o u k s ≡ (ok tt, s')
    → All (λ i. i.id ≡ k → i.is_active ≡ false) s'.store.integrations
unfolding revoke
revoke_rows o u k s s' h = elim (Option-cases (find_owned_integration u k s)) [
  | inl missing ↦ absurd (not_ok (ap (λ p. p.0) (rw (missing, revoke) at h)))
  | inr (i, found) ↦
      subst (λ (x : Partners). All (λ j. j.id ≡ k → j.is_active ≡ false) x.store.integrations)
        (ap (λ p. p.1) (rw (found, revoke) at h))
        (saved_rows (λ j. j.is_active ≡ false) k (set_revoked i) s.store.integrations
          (owned_id u k s i found) refl)
]

rotate_rows :
    (o : Outside) (u k : ℕ) (s s' : Partners) (a : Integration × Codes)
    → rotate_api_key o u k s ≡ (ok a, s')
    → All (λ i. i.id ≡ k → i.api_key_hash ≡ o.hash (generate_secret_key o)) s'.store.integrations
unfolding rotate_api_key
rotate_rows o u k s s' a h = elim (Option-cases (find_owned_integration u k s)) [
  | inl missing ↦ absurd (not_ok (ap (λ p. p.0) (rw (missing, rotate_api_key) at h)))
  | inr (i, found) ↦ elim (Bool-cases (is_paid i.billing_status)) [
    | inr unpaid ↦ absurd (not_ok (ap (λ p. p.0) (rw unpaid at (rw (found, rotate_api_key) at h))))
    | inl paid ↦
        subst
          (λ (x : Partners).
            All (λ j. j.id ≡ k → j.api_key_hash ≡ o.hash (generate_secret_key o))
              x.store.integrations)
          (ap (λ p. p.1) (rw paid at (rw (found, rotate_api_key) at h)))
          (saved_rows (λ j. j.api_key_hash ≡ o.hash (generate_secret_key o)) k (set_key o i)
            s.store.integrations (owned_id u k s i found) refl)
  ]
]

-- What every row with an id has, the row has that a key finds.
found_row :
    (Q : Integration → Type 0) (k : ℕ) (o : Outside) (key : Codes) (s s' : Partners)
    (i r : Integration)
    → All (λ j. j.id ≡ k → Q j) s.store.integrations
    → IsAllowed o key s i s' r
    → i.id ≡ k
    → (has_prefix key r ≡ true) × Q r
found_row Q k o key s s' i r rows a same =
    let (prefixed, q) =
      find_integration-eq-some (has_prefix key) (λ j. j.id ≡ k → Q j) s.store.integrations r rows
        a.stored in
    (prefixed, q (ap (λ x. x.id) (sym a.answer) ∙ same))

in_use : (key : Codes) (r : Integration) → has_prefix key r ≡ true → r.is_active ≡ false → ⊥
in_use key r h off = ground arith

-- Right after a revocation has answered, no key gets in as that integration.
pub revoked_key_refused :
    (o later : Outside) (u k : ℕ) (key : Codes) (s s' t : Partners) (i : Integration)
    → revoke o u k s ≡ (ok tt, s')
    → authenticate_api_key later key s' ≡ (ok i, t)
    → i.id ≢ k
revoked_key_refused o later u k key s s' t i h allowed same =
    let (r, shown) = authenticate_api_key-IsAllowed later key s' t i allowed in
    let (prefixed, off) =
      found_row (λ j. j.is_active ≡ false) k later key s' t i r (revoke_rows o u k s s' h) shown
        same in
    in_use key r prefixed off

-- Right after a rotation has answered, a key that gets in as that integration has the hash of the new
-- key.
pub rotated_key_replaced :
    (o later : Outside) (u k : ℕ) (key : Codes) (s s' t : Partners) (i : Integration)
    (a : Integration × Codes)
    → rotate_api_key o u k s ≡ (ok a, s')
    → authenticate_api_key later key s' ≡ (ok i, t)
    → i.id ≡ k
    → later.hash key ≡ o.hash (generate_secret_key o)
rotated_key_replaced o later u k key s s' t i a h allowed same =
    let (r, shown) = authenticate_api_key-IsAllowed later key s' t i allowed in
    shown.hashed
    ∙ (found_row (λ j. j.api_key_hash ≡ o.hash (generate_secret_key o)) k later key s' t i r
        (rotate_rows o u k s s' a h) shown same).1
