-- ===== src/Mono/Identity.antt =====
-- src/mono/transaction-identity.ts: which downloaded transactions are stored rows under another id.
-- The provider renames transactions, so a transaction with an unknown id is matched by its content.
pub mod Index
pub mod Conflicts
pub mod Keys
pub mod Claims
pub mod Outcome
use mytrackr_backend.Prelude.{
  ℕ, Bool, true, false, ◌&&◌, Option, none, some, String, List, [], ◌∷◌, ◌++◌, map, ◌==◌, str_eq,
  any, ltb, or_else, is_some, if◌then◌else◌,
}
use mytrackr_backend.Prelude.Int.{ℤ, eq_ℤ}
use mytrackr_backend.Prelude.Codes.{Codes, codes, codes_eq, is_space}
use mytrackr_backend.Mono.Entities.{
  Reading, missing, unreadable, safe, Content, MonoTransaction, Incoming, Key,
}

-- trim().replace(/\s+/g, ' '): `pending` says that a space is due, `started` that a word has been.
unfoldable pub collapse : (started pending : Bool) → Codes → Codes
collapse started pending [] = []
collapse started pending (c ∷ cs) =
    let later = collapse started started cs in
    let next = collapse true false cs in
    if is_space c then later else if pending then 32 ∷ c ∷ next else c ∷ next

abbrev pub eq_balance : Option ℤ → Option ℤ → Bool
eq_balance none none = true
eq_balance (some a) (some b) = eq_ℤ a b
eq_balance _ _ = false

-- The same JSON text
unfoldable pub same_key : Key → Key → Bool
same_key j k =
    eq_ℤ j.date k.date
    && (eq_ℤ j.amount k.amount
        && (eq_balance j.balance k.balance
            && (codes_eq j.type k.type
                && (codes_eq j.currency k.currency && codes_eq j.narration k.narration))))

-- The balance of the key, and null where the reading gives no key
abbrev pub key_balance : Reading → Option (Option ℤ)
key_balance missing = some none
key_balance unreadable = none
key_balance (safe b) = some (some b)

abbrev pub or_code : Codes → String → Codes
or_code [] s = codes s
or_code (c ∷ cs) s = c ∷ cs

abbrev pub is_empty : Codes → Bool
is_empty [] = true
is_empty (c ∷ cs) = false

-- Map.get and Map.set, the newest entry first
abbrev pub Index : Type 0
Index = List (String × MonoTransaction)

unfoldable pub find_id : String → Index → Option MonoTransaction
find_id p [] = none
find_id p ((q, r) ∷ m) = let later = find_id p m in if str_eq q p then some r else later

-- One row under its ids, and none where one of them is another row's: the code throws
unfoldable pub index_ids : MonoTransaction → List String → Index → Option Index
index_ids r [] m = some m
index_ids r (p ∷ ps) m =
    let rest = index_ids r ps ((p, r) ∷ m) in
    elim (find_id p m) [ none ↦ rest | some q ↦ if q.id == r.id then rest else none ]

abbrev pub ids_of : MonoTransaction → List String
ids_of r = r.mono_transaction_id ∷ r.provider_id_aliases

unfoldable pub index_rows : List MonoTransaction → Index → Option Index
index_rows [] m = some m
index_rows (r ∷ rows) m = elim (index_ids r (ids_of r) m) [
  | none ↦ none
  | some n ↦ index_rows rows n
]

-- The order of the stored rows: the oldest first, and by id where they are as old
abbrev pub comes_before : MonoTransaction → MonoTransaction → Bool
comes_before a b =
    if ltb a.created_at b.created_at
    then true
    else if a.created_at == b.created_at
    then ltb a.id b.id
    else false

unfoldable pub insert_row : MonoTransaction → List MonoTransaction → List MonoTransaction
insert_row r [] = r ∷ []
insert_row r (x ∷ rows) =
    let later = x ∷ insert_row r rows in if comes_before r x then r ∷ x ∷ rows else later

unfoldable pub ordered : List MonoTransaction → List MonoTransaction
ordered [] = []
ordered (r ∷ rows) = insert_row r (ordered rows)

-- byFingerprint
abbrev pub Buckets : Type 0
Buckets = List (Key × List MonoTransaction)

unfoldable pub bucket : Key → Buckets → List MonoTransaction
bucket k [] = []
bucket k ((j, rows) ∷ b) = let later = bucket k b in if same_key j k then rows else later

-- [...new Map(rows.map((tx) => [tx.id, tx])).values()]: the place of the first, the value of the last
unfoldable pub put : Incoming → List Incoming → List Incoming
put tx [] = tx ∷ []
put tx (x ∷ xs) = let later = x ∷ put tx xs in if str_eq x.id tx.id then tx ∷ xs else later

unfoldable pub put_all : List Incoming → List Incoming → List Incoming
put_all [] done = done
put_all (tx ∷ txs) done = put_all txs (put tx done)

-- The ids of the stored rows that the download names itself
unfoldable pub known_rows : Index → List Incoming → List ℕ
known_rows m [] = []
known_rows m (tx ∷ txs) =
    let rest = known_rows m txs in elim (find_id tx.id m) [ none ↦ rest | some r ↦ r.id ∷ rest ]

pub record Update : Type 0 where
  pub id : ℕ
  pub provider_id_aliases : List String

-- The update of a row with one more alias, in its place
unfoldable pub add_alias : MonoTransaction → String → List Update → List Update
add_alias r p [] = record { id = r.id; provider_id_aliases = r.provider_id_aliases ++ p ∷ [] } ∷ []
add_alias r p (u ∷ us) =
    let later = u ∷ add_alias r p us in
    if u.id == r.id
    then record u { provider_id_aliases = u.provider_id_aliases ++ p ∷ [] } ∷ us
    else later

-- The variables of the loop over the download
pub record Progress : Type 0 where
  pub by_provider_id : Index
  pub used : List ℕ
  pub aliases : List Update
  pub transactions : List Incoming

-- The first row that is not taken
unfoldable pub first_free : List ℕ → List MonoTransaction → Option MonoTransaction
first_free used [] = none
first_free used (r ∷ rows) =
    let later = first_free used rows in if any (λ k. k == r.id) used then later else some r

abbrev pub claim : MonoTransaction → Incoming → Progress → Progress
claim r tx p = record p {
  used = r.id ∷ p.used;
  aliases = add_alias r tx.id p.aliases;
  by_provider_id = (tx.id, r) ∷ p.by_provider_id;
}

-- A deleted row stays deleted; any other gives the transaction its own id.
abbrev pub emit : MonoTransaction → Incoming → Progress → Progress
emit r tx p =
    if is_some r.deleted_at
    then p
    else record p { transactions = p.transactions ++ record tx { id = r.mono_transaction_id } ∷ [] }

abbrev pub emit_new : Incoming → Progress → Progress
emit_new tx p = record p { transactions = p.transactions ++ tx ∷ [] }

pub record Reconciled : Type 0 where
  pub transactions : List Incoming
  pub aliases : List Update

abbrev pub start : Index → List Incoming → Progress
start m txs = record {
  by_provider_id = m;
  used = known_rows m txs;
  aliases = [];
  transactions = [];
}

abbrev pub conclude : Progress → Reconciled
conclude p = record { transactions = put_all p.transactions []; aliases = p.aliases }

-- toLowerCase and toUpperCase, of which the code needs nothing
module _ (lower upper : Codes → Codes) where
  -- fingerprint
  unfoldable pub fingerprint : Content → Option Key
  fingerprint c = elim c.date [
    | none ↦ none
    | some date ↦ elim c.amount [
      | safe amount ↦ elim (key_balance c.balance) [
        | none ↦ none
        | some balance ↦
            if is_empty c.type
            then none
            else if is_empty (collapse false false c.narration)
            then none
            else some record {
              date = date;
              amount = amount;
              balance = balance;
              type = lower c.type;
              currency = upper (or_code c.currency "NGN");
              narration = collapse false false c.narration;
            }
      ]
      | _ ↦ none
    ]
  ]

  unfoldable pub bucket_row : MonoTransaction → Buckets → Buckets
  bucket_row r b = elim (fingerprint r.content) [
    | none ↦ b
    | some k ↦ (k, bucket k b ++ r ∷ []) ∷ b
  ]

  unfoldable pub bucket_rows : List MonoTransaction → Buckets → Buckets
  bucket_rows [] b = b
  bucket_rows (r ∷ rows) b = bucket_rows rows (bucket_row r b)

  unfoldable pub match_content : Buckets → List ℕ → Incoming → Option MonoTransaction
  match_content b used tx = elim (fingerprint tx.content) [
    | none ↦ none
    | some k ↦ first_free used (bucket k b)
  ]

  -- The body of the loop
  unfoldable pub visit : Buckets → Incoming → Progress → Progress
  visit b tx p = elim (find_id tx.id p.by_provider_id) [
    | some r ↦ emit r tx p
    | none ↦ elim (match_content b p.used tx) [
      | none ↦ emit_new tx p
      | some r ↦ emit r tx (claim r tx p)
    ]
  ]

  unfoldable pub visit_all : Buckets → List Incoming → Progress → Progress
  visit_all b [] p = p
  visit_all b (tx ∷ txs) p = visit_all b txs (visit b tx p)

  -- reconcileMonoTransactions, and none where it throws
  unfoldable pub reconcile_mono_transactions :
      List Incoming → List MonoTransaction → Option Reconciled
  reconcile_mono_transactions incoming existing =
      let unique = put_all incoming [] in
      elim (index_rows (ordered existing) []) [
        | none ↦ none
        | some m ↦
            some (conclude (visit_all (bucket_rows (ordered existing) []) unique (start m unique)))
      ]
