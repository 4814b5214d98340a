-- ===== src/Mono/Entities.antt =====
-- The transactions of the bank feed: src/mono/entities/transaction.entity.ts and what a download has.
use mytrackr_backend.Prelude.{ℕ, Option, String, List}
use mytrackr_backend.Prelude.Int.{ℤ}
use mytrackr_backend.Prelude.Codes.{Codes}

-- A field that `Number` reads: absent, no safe integer, or the number
pub data Reading : Type 0 where
  missing unreadable : Reading
  safe : ℤ → Reading

-- The fields that identify a transaction, with the date as `getTime` gives it; no text is missing
-- other than by being empty.
pub record Content : Type 0 where
  pub date : Option ℤ
  pub amount : Reading
  pub balance : Reading
  pub type : Codes
  pub currency : Codes
  pub narration : Codes

-- A stored transaction; its id is the number of its place in the order of the ids.
pub record MonoTransaction : Type 0 where
  pub id : ℕ
  pub mono_transaction_id : String
  pub provider_id_aliases : List String
  pub content : Content
  pub created_at : ℕ
  pub deleted_at : Option ℕ

-- A downloaded transaction, under `id || _id`
pub record Incoming : Type 0 where
  pub id : String
  pub content : Content

-- What is made into the key
pub record Key : Type 0 where
  pub date : ℤ
  pub amount : ℤ
  pub balance : Option ℤ
  pub type : Codes
  pub currency : Codes
  pub narration : Codes
