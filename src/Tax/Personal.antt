-- ===== src/Tax/Personal.antt =====
-- The personal income tax.
use mytrackr_backend.Prelude.{
  ℕ, ◌+◌, ◌-◌, ◌*◌, ◌≤◌, ◌≡◌, refl, ap, ◌∙◌, max, Bool, true, false, List, [], ◌∷◌, arith, length,
  ltb, All, any, not, is_some, if_both, ◌==◌, ==_iff,
}
use mytrackr_backend.Prelude.Int.{ℤ, pos_part, ◌-ℤ◌, ◌≤ℤ◌, -ℤ_parts}
use mytrackr_backend.Tax.{
  Band, Line, bands, taxable_in, to_fixed, add_line, tax_bands, calculate_pit,
}

abbrev pub sum_taxable : List Line → ℕ
sum_taxable [] = 0
sum_taxable (l ∷ ls) = l.taxable_amount + sum_taxable ls

abbrev pub sum_tax : List Line → ℕ
sum_tax [] = 0
sum_tax (l ∷ ls) = l.tax_generated + sum_tax ls

tax_bands-zero : (bs : List Band) → (tax_bands bs 0).0 ≡ 0
unfolding tax_bands
tax_bands-zero [] = refl
tax_bands-zero (b ∷ bs) = ground arith

-- Stopping early changes nothing.
tax_bands-cons :
    (b : Band) (bs : List Band) (r : ℕ)
    → (tax_bands (b ∷ bs) r).0 ≡ taxable_in b r * b.rate + (tax_bands bs (r - taxable_in b r)).0
unfolding tax_bands
tax_bands-cons b bs r =
    let taxable = taxable_in b r in
    let (tax, lines) = tax_bands bs (r - taxable) in
    if_both (λ (x : ℕ × List Line). x.0 ≡ taxable * b.rate + tax) (r - taxable == 0)
      (taxable * b.rate, add_line b taxable []) (taxable * b.rate + tax, add_line b taxable lines)
      (λ done.
        (let z : r - taxable ≡ 0 = (==_iff (r - taxable) 0).0 done in
          rw (z, tax_bands-zero) (omega arith)))
      (λ _. refl)

tax_bands_none : (r r' : ℕ) → (tax_bands [] r).0 ≤ (tax_bands [] r').0
unfolding tax_bands
tax_bands_none r r' = omega arith

tax_bands_nil : (r m : ℕ) → (tax_bands [] r).0 ≤ r * m
unfolding tax_bands
tax_bands_nil r m = omega arith

taxable_in_mono : (b : Band) (r r' : ℕ) → r ≤ r' → taxable_in b r ≤ taxable_in b r'
taxable_in_mono b r r' h = ground arith

rest_mono : (b : Band) (r r' : ℕ) → r ≤ r' → r - taxable_in b r ≤ r' - taxable_in b r'
rest_mono b r r' h = ground arith

tax_bands_mono : (bs : List Band) (r r' : ℕ) → r ≤ r' → (tax_bands bs r).0 ≤ (tax_bands bs r').0
tax_bands_mono [] r r' h = tax_bands_none r r'
tax_bands_mono (b ∷ bs) r r' h =
    let here : taxable_in b r * b.rate ≤ taxable_in b r' * b.rate =
      grind (arith, taxable_in_mono b r r' h) in
    let later =
      tax_bands_mono bs (r - taxable_in b r) (r' - taxable_in b r') (rest_mono b r r' h) in
    rw (tax_bands-cons b bs r, tax_bands-cons b bs r') (omega arith)

-- No band taxes more than its rate.
abbrev RatesWithin : ℕ → List Band → Type 0
RatesWithin m = All (λ b. b.rate ≤ m)

taxable_in-le : (b : Band) (r : ℕ) → taxable_in b r ≤ r
taxable_in-le b r = ground arith

share_add : (x y m : ℕ) → x * m + y * m ≡ (x + y) * m
share_add x y m = grind arith

share_split : (x r m : ℕ) → x ≤ r → x * m + (r - x) * m ≡ r * m
share_split x r m h =
    let whole : x + (r - x) ≡ r = omega arith in share_add x (r - x) m ∙ ap (λ n. n * m) whole

tax_bands-le : (m : ℕ) (bs : List Band) (r : ℕ) → RatesWithin m bs → (tax_bands bs r).0 ≤ r * m
tax_bands-le m [] r h = tax_bands_nil r m
tax_bands-le m (b ∷ bs) r (h, hs) =
    let x = taxable_in b r in
    let later = tax_bands-le m bs (r - x) hs in
    let here : x * b.rate ≤ x * m = grind arith in
    let split = share_split x r m (taxable_in-le b r) in rw (tax_bands-cons b bs r) (omega arith)

-- The taxes of lines, in hundredths, are a tax in ten-thousandths, up to half a hundredth a line.
abbrev pub IsRounded : (lines tax : ℕ) → List Line → Type 0
IsRounded n tax ls = (sum_tax ls * 100 ≤ tax + 50 * n) × (tax ≤ sum_tax ls * 100 + 50 * n)

to_fixed_lem : (x : ℕ) → (to_fixed x * 100 ≤ x + 50) × (x ≤ to_fixed x * 100 + 50)
to_fixed_lem x = (omega arith, omega arith)

add_line-IsRounded :
    (b : Band) (x tax : ℕ) (ls : List Line)
    → IsRounded (length ls) tax ls
    → IsRounded (length (add_line b x ls)) (x * b.rate + tax) (add_line b x ls)
add_line-IsRounded b x tax ls (upper, lower) =
    if_both (λ ms. IsRounded (length ms) (x * b.rate + tax) ms) (ltb 0 x) _ _
      (λ _.
        let (high, low) = to_fixed_lem (x * b.rate) in
        (omega (arith, high, upper), omega (arith, low, lower)))
      (λ none_in. let z : x ≡ 0 = ground arith in rw z (omega (arith, upper), omega (arith, lower)))

sum_taxable-add_line :
    (b : Band) (x : ℕ) (ls : List Line) → sum_taxable (add_line b x ls) ≡ x + sum_taxable ls
sum_taxable-add_line b x ls = ground arith

tax_bands-IsRounded :
    (bs : List Band) (r : ℕ)
    → IsRounded (length (tax_bands bs r).1) (tax_bands bs r).0 (tax_bands bs r).1
unfolding tax_bands
tax_bands-IsRounded [] r = (omega arith, omega arith)
tax_bands-IsRounded (b ∷ bs) r =
    let x = taxable_in b r in
    let (tax, lines) = tax_bands bs (r - x) in
    if_both (λ (p : ℕ × List Line). IsRounded (length p.1) p.0 p.1) (r - x == 0)
      (x * b.rate, add_line b x []) (x * b.rate + tax, add_line b x lines)
      (λ _.
        let (upper, lower) = add_line-IsRounded b x 0 [] (omega arith, omega arith) in
        (omega (arith, upper), omega (arith, lower)))
      (λ _. add_line-IsRounded b x tax lines (tax_bands-IsRounded bs (r - x)))

abbrev has_top : List Band → Bool
has_top = any (λ b. not (is_some b.width))

rest_above :
    (b : Band) (bs : List Band) (r : ℕ)
    → has_top (b ∷ bs) ≡ true
    → (r - taxable_in b r == 0) ≡ false
    → has_top bs ≡ true
rest_above b bs r top more = ground arith

sum_taxable-tax_bands :
    (bs : List Band) (r : ℕ) → has_top bs ≡ true → sum_taxable (tax_bands bs r).1 ≡ r
unfolding tax_bands
sum_taxable-tax_bands [] r top = cc
sum_taxable-tax_bands (b ∷ bs) r top =
    let x = taxable_in b r in
    let (tax, lines) = tax_bands bs (r - x) in
    if_both (λ (p : ℕ × List Line). sum_taxable p.1 ≡ r) (r - x == 0) (x * b.rate, add_line b x [])
      (x * b.rate + tax, add_line b x lines)
      (λ done.
        omega (arith, sum_taxable-add_line b x [], taxable_in-le b r, (==_iff (r - x) 0).0 done))
      (λ more. omega (
        arith,
        sum_taxable-add_line b x lines,
        taxable_in-le b r,
        sum_taxable-tax_bands bs (r - x) (rest_above b bs r top more),
      ))

-- The breakdown of the personal tax accounts for it: its lines share out the whole chargeable
-- income; with `tax` for the tax of the bands, which is a quarter of the chargeable income at most,
-- the taxes of the lines add up to `tax` with an error of half a hundredth a line at most; and the
-- estimate is `tax` or one percent of the gross income, whichever is more.
pub calculate_pit_breakdown :
    (net_profit gross_income deductions : ℤ)
    → let t = calculate_pit net_profit gross_income deductions in
      (sum_taxable t.breakdown ≡ t.chargeable_income)
      × ((tax : ℕ) × (t.estimated_annual_tax ≡ max tax (pos_part gross_income))
          × IsRounded (length t.breakdown) tax t.breakdown
          × (tax ≤ t.chargeable_income * 25))
unfolding calculate_pit
calculate_pit_breakdown net_profit gross_income deductions =
    let r = pos_part (net_profit -ℤ deductions) in
    (
      sum_taxable-tax_bands bands r refl,
      (
        (tax_bands bands r).0,
        refl,
        tax_bands-IsRounded bands r,
        tax_bands-le 25 bands r (
          omega arith,
          (omega arith, (omega arith, (omega arith, (omega arith, (omega arith, tt))))),
        ),
      ),
    )

-- The personal tax never falls when the profit grows, with the same gross income and deductions.
pub calculate_pit_mono :
    (net_profit more gross_income deductions : ℤ)
    → net_profit ≤ℤ more
    → (calculate_pit net_profit gross_income deductions).estimated_annual_tax
      ≤ (calculate_pit more gross_income deductions).estimated_annual_tax
unfolding calculate_pit
calculate_pit_mono net_profit more gross_income deductions h =
    let r = pos_part (net_profit -ℤ deductions) in
    let r' = pos_part (more -ℤ deductions) in
    let grown : r ≤ r' = ground (arith, -ℤ_parts net_profit deductions, -ℤ_parts more deductions) in
    omega (arith, tax_bands_mono bands r r' grown)
