-- ===== src/Integrations/Events/Money.antt =====
-- What the rows that events leave add up to.
use mytrackr_backend.Prelude.{
  ap, ◌+◌, ◌%◌, not, ℕ, ◌≡◌, refl, sym, ◌∙◌, Bool, true, false, ◌&&◌, ◌==◌, ltb, leb, String, List,
  [], ◌∷◌, ◌++◌, arith, if_both, if◌then◌else◌,
}
use mytrackr_backend.Calendar.{ms_per_day}
use mytrackr_backend.Prelude.Int.{ℤ, pos, ◌+ℤ◌, ◌-ℤ◌, sum_ℤ, int_laws, -ℤ_parts}
use mytrackr_backend.Reports.Treatment.{TransactionDirection, credit, debit}
use mytrackr_backend.Reports.Ledger.{where_only, +ℤ_assoc}
use mytrackr_backend.Payments.Entities.{Integration}
use mytrackr_backend.Integrations.Entities.{
  IntegrationEvent, IntegrationEventType, order_paid, order_refunded, order_cancelled,
  payment_failed,
}
use mytrackr_backend.Integrations.Ledger.{
  RowKind, revenue, fee, refund, ExternalId, of_event, of_charge, of_refund, other, same_id,
  Transaction, TransactionDto, has_row, create_row, has_row-append, save_new, Saved, is_refused,
  day_of,
}
use mytrackr_backend.Integrations.Metrics.{in_scope}
use mytrackr_backend.Integrations.Events.{
  throws, save_finance_transaction, sale, sale_fee, sale_refund, mirror_sale, mirror_as,
}

-- What a row and an event add to the money of an integration
abbrev pub signed : TransactionDirection → ℕ → ℤ
signed credit n = pos n
signed debit n = pos 0 -ℤ pos n

abbrev row_money : Transaction → ℤ
row_money t = signed t.direction t.amount

abbrev pub money_as : IntegrationEventType → (amount fee : ℕ) → ℤ
money_as order_paid a f = pos a -ℤ pos f
money_as order_refunded a f = pos 0 -ℤ pos a
money_as order_cancelled a f = pos 0
money_as payment_failed a f = pos 0

abbrev pub event_money : IntegrationEvent → ℤ
event_money e = money_as e.event e.amount e.payment_fee

-- A row that an event of the integration left, with a date in the period, that is not deleted
abbrev pub comes_from : (integration : ℕ) → ExternalId → Bool
comes_from k (of_event i x kind) = i == k
comes_from k (of_charge x kind) = false
comes_from k (of_refund x) = false
comes_from k (other x) = false

abbrev row_scope : (integration start end_at : ℕ) → Transaction → Bool
row_scope k start end_at t =
    comes_from k t.external_id && (not t.is_deleted && (leb start t.date && leb t.date end_at))

abbrev pub money_of_rows : (integration start end_at : ℕ) → List Transaction → ℤ
money_of_rows k s t = sum_ℤ (where_only (row_scope k s t) row_money)

abbrev pub money_of_events : (integration start end_at : ℕ) → List IntegrationEvent → ℤ
money_of_events k s t = sum_ℤ (where_only (in_scope k s t) event_money)

pub sum_ℤ-append :
    {A : Type 0} (f : A → ℤ) (xs : List A) (y : A) → sum_ℤ f (xs ++ y ∷ []) ≡ sum_ℤ f xs +ℤ f y
sum_ℤ-append f [] y = omega int_laws
sum_ℤ-append f (x ∷ xs) y = rw (sum_ℤ-append f xs y) (sym (+ℤ_assoc (f x) (sum_ℤ f xs) (f y)))

-- From the beginning of a day to the end of a day
abbrev pub IsWhole : (start end_at : ℕ) → Type 0
IsWhole start end_at = (start % ms_per_day ≡ 0) × ((end_at + 1) % ms_per_day ≡ 0)

after_start : (s d : ℕ) → s % ms_per_day ≡ 0 → leb s (day_of d) ≡ leb s d
after_start s d h = ground arith

before_end : (d t : ℕ) → (t + 1) % ms_per_day ≡ 0 → leb (day_of d) t ≡ leb d t
before_end d t h = ground arith

-- In a period of whole days, the day of an instant is in it when the instant is.
row_scope-create_row :
    (business user k s t : ℕ) (dto : TransactionDto)
    → IsWhole s t
    → row_scope k s t (create_row business user dto)
      ≡ (comes_from k dto.external_id && (leb s dto.date && leb dto.date t))
row_scope-create_row business user k s t dto (starts, ends) =
    rw (after_start s dto.date starts, before_end dto.date t ends) refl

-- The rows of a save
abbrev rows_of : Integration → TransactionDto → List Transaction → List Transaction
rows_of i dto rows = (save_finance_transaction i dto rows).1

save_money :
    (i : Integration) (dto : TransactionDto) (rows : List Transaction) (k s t : ℕ)
    → IsWhole s t
    → has_row dto.external_id rows ≡ false
    → money_of_rows k s t (rows_of i dto rows)
      ≡ money_of_rows k s t rows
        +ℤ (if comes_from k dto.external_id && (leb s dto.date && leb dto.date t)
            then row_money (create_row i.business.id i.user dto)
            else pos 0)
save_money i dto rows k s t whole h =
    rw (save_new i.business.id i.user dto rows h, rows_of)
      (sum_ℤ-append (where_only (row_scope k s t) row_money) rows
          (create_row i.business.id i.user dto)
        ∙ ap
            (λ c.
              money_of_rows k s t rows
              +ℤ (if c then row_money (create_row i.business.id i.user dto) else pos 0))
            (row_scope-create_row i.business.id i.user k s t dto whole))

other_kind : (i : ℕ) (x : String) → same_id (of_event i x revenue) (of_event i x fee) ≡ false
unfolding same_id
other_kind i x = ground arith

fee_new :
    (i : Integration) (e : IntegrationEvent) (rows : List Transaction)
    → has_row (of_event e.integration e.external_id revenue) rows ≡ false
    → has_row (of_event e.integration e.external_id fee) rows ≡ false
    → has_row (of_event e.integration e.external_id fee) (rows_of i (sale i e) rows) ≡ false
fee_new i e rows h f =
    rw (save_new i.business.id i.user (sale i e) rows h, rows_of)
      (rw
        (
          has_row-append (of_event e.integration e.external_id fee) rows
              (create_row i.business.id i.user (sale i e)),
          other_kind e.integration e.external_id,
        )
        f)

add_both :
    (c : Bool) (m a b : ℤ) (n f : ℕ)
    → a ≡ m +ℤ (if c then pos n else pos 0)
    → b ≡ a +ℤ (if c then pos 0 -ℤ pos f else pos 0)
    → b ≡ m +ℤ (if c then pos n -ℤ pos f else pos 0)
add_both true m a b n f p q = rw q (rw p (omega (int_laws, -ℤ_parts)))
add_both false m a b n f p q = rw q (rw p (omega int_laws))

no_fee :
    (c : Bool) (m a : ℤ) (n f : ℕ)
    → ltb 0 f ≡ false
    → a ≡ m +ℤ (if c then pos n else pos 0)
    → a ≡ m +ℤ (if c then pos n -ℤ pos f else pos 0)
no_fee true m a n f z p = let e : f ≡ 0 = ground arith in rw p (rw e (omega (int_laws, -ℤ_parts)))
no_fee false m a n f z p = p

-- No row is there under an external id of the event.
abbrev IsNew : IntegrationEvent → List Transaction → Type 0
IsNew e rows = (kind : RowKind) → has_row (of_event e.integration e.external_id kind) rows ≡ false

rows_if :
    (c : Bool) (a b : Bool × List Transaction) → (if c then a else b).1 ≡ (if c then a.1 else b.1)
rows_if true a b = refl
rows_if false a b = refl

rows_saved :
    (r : Saved × List Transaction) (c : Bool) (next : List Transaction → Bool × List Transaction)
    → is_refused r.0 ≡ false
    → (if is_refused r.0 then (true, r.1) else if c then next r.1 else (false, r.1)).1
      ≡ (if c then (next r.1).1 else r.1)
rows_saved r c next h = rw h (rows_if c (next r.1) (false, r.1))

-- The rows of a sale that is new
mirror_sale_rows :
    (i : Integration) (e : IntegrationEvent) (rows : List Transaction)
    → IsNew e rows
    → (mirror_sale i e rows).1 ≡ (
        if ltb 0 e.payment_fee
        then rows_of i (sale_fee i e) (rows_of i (sale i e) rows)
        else rows_of i (sale i e) rows)
mirror_sale_rows i e rows new =
    rows_saved (save_finance_transaction i (sale i e) rows) (ltb 0 e.payment_fee)
      (λ sold. throws (save_finance_transaction i (sale_fee i e) sold))
      (rw (save_new i.business.id i.user (sale i e) rows (new revenue)) refl)

sale-money :
    (i : Integration) (e : IntegrationEvent) (rows : List Transaction)
    → IsNew e rows
    → (k s t : ℕ) → IsWhole s t
    → money_of_rows k s t (mirror_sale i e rows).1
      ≡ money_of_rows k s t rows
        +ℤ (if in_scope k s t e then pos e.amount -ℤ pos e.payment_fee else pos 0)
sale-money i e rows new k s t whole =
    let sold = rows_of i (sale i e) rows in
    let first = save_money i (sale i e) rows k s t whole (new revenue) in
    ap (money_of_rows k s t) (mirror_sale_rows i e rows new)
    ∙ if_both
        (λ ys.
          money_of_rows k s t ys
          ≡ money_of_rows k s t rows
            +ℤ (if in_scope k s t e then pos e.amount -ℤ pos e.payment_fee else pos 0))
        (ltb 0 e.payment_fee) (rows_of i (sale_fee i e) sold) sold
        (λ _.
          add_both (in_scope k s t e) (money_of_rows k s t rows) (money_of_rows k s t sold)
            (money_of_rows k s t (rows_of i (sale_fee i e) sold)) e.amount e.payment_fee first
            (save_money i (sale_fee i e) sold k s t whole
              (fee_new i e rows (new revenue) (new fee))))
        (λ z.
          no_fee (in_scope k s t e) (money_of_rows k s t rows) (money_of_rows k s t sold) e.amount
            e.payment_fee z first)

add_nothing : (c : Bool) (m : ℤ) → m ≡ m +ℤ (if c then pos 0 else pos 0)
add_nothing true m = omega int_laws
add_nothing false m = omega int_laws

pub mirror_as-money :
    (type : IntegrationEventType) (i : Integration) (e : IntegrationEvent) (rows : List Transaction)
    → IsNew e rows
    → (k s t : ℕ) → IsWhole s t
    → money_of_rows k s t (mirror_as type i e rows).1
      ≡ money_of_rows k s t rows
        +ℤ (if in_scope k s t e then money_as type e.amount e.payment_fee else pos 0)
mirror_as-money order_paid i e rows new k s t whole = sale-money i e rows new k s t whole
mirror_as-money order_refunded i e rows new k s t whole =
    save_money i (sale_refund i e) rows k s t whole (new refund)
mirror_as-money order_cancelled i e rows new k s t whole = add_nothing (in_scope k s t e) _
mirror_as-money payment_failed i e rows new k s t whole = add_nothing (in_scope k s t e) _
