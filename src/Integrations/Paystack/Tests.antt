-- ===== src/Integrations/Paystack/Tests.antt =====
-- A gateway with one full page and a short one; a charge that is imported twice.
use mytrackr_backend.Prelude.{
  ℕ, ◌+◌, ◌≡◌, none, some, false, List, [], ◌∷◌, ◌++◌, ◌==◌, length, count, arith, if◌then◌else◌,
}
use mytrackr_backend.Integrations.Paystack.{
  Reply, rows, Charge, Refund, fetch_all, is_success, import_all,
}
use mytrackr_backend.Integrations.Paystack.Pages.{Fetched, fetch_all_ends}
use mytrackr_backend.Integrations.Paystack.Import.{import_all_again}
use mytrackr_backend.Integrations.Paystack.Counts.{handled}

abbrev ten : List ℕ
ten = 1 ∷ 2 ∷ 3 ∷ 4 ∷ 5 ∷ 6 ∷ 7 ∷ 8 ∷ 9 ∷ 10 ∷ []

abbrev hundred : List ℕ
hundred = ten ++ (ten ++ (ten ++ (ten ++ (ten ++ (ten ++ (ten ++ (ten ++ (ten ++ ten))))))))

abbrev pages : ℕ → Reply ℕ
pages n = if n == 1 then rows hundred else rows ten

fetch_all_ends_example : (out : Reply ℕ) × (fetch_all pages 2 ≡ some out) × Fetched pages 1 out
fetch_all_ends_example = fetch_all_ends pages 1 2 (omega arith) (omega arith)

abbrev sold : Charge
sold = record {
  id = some "11";
  reference = none;
  status = "success";
  amount = 5000;
  fees = 75;
  paid_at = none;
  created_at = 10;
}

abbrev abandoned : Charge
abandoned = record {
  id = some "12";
  reference = none;
  status = "abandoned";
  amount = 5000;
  fees = 0;
  paid_at = none;
  created_at = 11;
}

abbrev given_back : Refund
given_back = record {
  id = none;
  reference = some "r1";
  amount = 200;
  created_at = some 12;
  processed_at = 13;
}

abbrev charges : List Charge
charges = sold ∷ abandoned ∷ []

abbrev refunds : List Refund
refunds = given_back ∷ []

import_all_again_example :
    ((import_all 3 7 charges refunds []).has_thrown ≡ false)
    × (handled (import_all 3 7 charges refunds []) ≡ count is_success charges + length refunds)
    × (import_all 4 8 charges refunds (import_all 3 7 charges refunds []).ledger ≡ record {
      imported = 0;
      skipped = count is_success charges + length refunds;
      ledger = (import_all 3 7 charges refunds []).ledger;
      has_thrown = false;
    })
import_all_again_example = import_all_again 3 7 4 8 charges refunds [] tt
