-- ===== src/Escrow/Ledger.antt =====
-- The double-entry ledger (app/services/ledger.py).
pub mod Balance
pub mod Funding
use vekro_backend.Base.{
  ℕ, ◌+◌, ◌-◌, ◌==◌, ltb, leb, Bool, true, false, not, ◌&&◌, ◌||◌, Option, some, List, [], ◌∷◌, any,
  is_empty, strip, text_eq, codes, map, length, Text, ℤ, pos, ◌+ℤ◌, ◌-ℤ◌, if◌then◌else◌,
}
use vekro_backend.Model.Status.{LedgerEntrySide, debit, credit}
use vekro_backend.Model.Rows.{LedgerEntry, Escrow}
use vekro_backend.Model.Db.{ledger_entry}
use vekro_backend.Session.{
  Action, pure, gets, require, modify, ◌>>=◌, ◌>>◌, new_id, save_escrow, record_anchor_event,
  ledger_validation_error, ledger_idempotency_conflict, ledger_unbalanced,
}

pub record LedgerMovement : Type 0 where
  pub escrow_id : ℕ
  pub idempotency_key : Text
  pub amount : ℕ
  pub debit_account_code : Text
  pub credit_account_code : Text
  pub currency : Text

pub record LedgerPostResult : Type 0 where
  pub entry_group_id : ℕ
  pub created_entries : ℕ
  pub was_idempotent_replay : Bool

abbrev pub escrow_held_account : Text
escrow_held_account = codes "ESCROW_HELD"

abbrev pub buyer_clearing_account : Text
buyer_clearing_account = codes "BUYER_CLEARING"

abbrev pub kes : Text
kes = codes "KES"

-- `str.upper` on ASCII
abbrev pub upper_char : ℕ → ℕ
upper_char c = if leb b'a' c && leb c b'z' then c - 32 else c

abbrev pub upper : Text → Text
upper s = map upper_char s

abbrev pub debit_amount : LedgerEntry → ℕ
debit_amount entry = elim entry.side [ debit ↦ entry.amount | credit ↦ 0 ]

abbrev pub credit_amount : LedgerEntry → ℕ
credit_amount entry = elim entry.side [ debit ↦ 0 | credit ↦ entry.amount ]

-- The two totals of the loop of `_is_balanced`.
abbrev pub debit_total : List LedgerEntry → ℕ
debit_total [] = 0
debit_total (entry ∷ entries) = debit_amount entry + debit_total entries

abbrev pub credit_total : List LedgerEntry → ℕ
credit_total [] = 0
credit_total (entry ∷ entries) = credit_amount entry + credit_total entries

abbrev pub is_balanced : List LedgerEntry → Bool
is_balanced entries = debit_total entries == credit_total entries

-- `_entries_by_idempotency_key`
unfoldable pub entries_by_idempotency_key : Text → List LedgerEntry → List LedgerEntry
entries_by_idempotency_key key [] = []
entries_by_idempotency_key key (entry ∷ entries) =
    let rest = entries_by_idempotency_key key entries in
    if text_eq entry.idempotency_key key then entry ∷ rest else rest

abbrev pub is_foreign : ℕ → LedgerEntry → Bool
is_foreign escrow_id entry = not (entry.escrow_id == escrow_id)

-- A movement as `post_movement` has stripped and normalised it.
abbrev pub normalized : LedgerMovement → LedgerMovement
normalized movement = record movement {
  idempotency_key = strip movement.idempotency_key;
  debit_account_code = strip movement.debit_account_code;
  credit_account_code = strip movement.credit_account_code;
  currency = upper (strip movement.currency);
}

-- The tests at the head of `post_movement`, in order, on the normalised movement.
unfoldable pub check_movement : LedgerMovement → Action (Unit {0})
check_movement m = do
  require (not (is_empty m.idempotency_key)) ledger_validation_error
  require (ltb 0 m.amount) ledger_validation_error
  require (not (is_empty m.debit_account_code || is_empty m.credit_account_code))
      ledger_validation_error
  require (not (text_eq m.debit_account_code m.credit_account_code)) ledger_validation_error
  require (length m.currency == 3) ledger_validation_error

abbrev pub entry_of : LedgerMovement → ℕ → ℕ → LedgerEntrySide → LedgerEntry
entry_of m id group side = record {
  id = id;
  escrow_id = m.escrow_id;
  entry_group_id = group;
  idempotency_key = m.idempotency_key;
  account_code = elim side [ debit ↦ m.debit_account_code | credit ↦ m.credit_account_code ];
  side = side;
  amount = m.amount;
  currency = m.currency;
}

abbrev pub add_entry : LedgerEntry → Action (Unit {0})
add_entry entry = modify λ db. record db { ledger_entries = entry ∷ db.ledger_entries }

-- The new debit and credit of a movement whose key is new. record_ledger_entry of
-- app/services/anchoring/recorder.py files their events under the transaction of the escrow.
unfoldable pub post_entries : Option ℕ → LedgerMovement → Action LedgerPostResult
post_entries transaction_id m = do
  group ← new_id
  debit_id ← new_id
  credit_id ← new_id
  require (is_balanced (entry_of m debit_id group debit ∷ entry_of m credit_id group credit ∷ []))
      ledger_unbalanced
  add_entry (entry_of m debit_id group debit)
  add_entry (entry_of m credit_id group credit)
  record_anchor_event transaction_id (ledger_entry (entry_of m debit_id group debit))
  record_anchor_event transaction_id (ledger_entry (entry_of m credit_id group credit))
  pure (record { entry_group_id = group; created_entries = 2; was_idempotent_replay = false })

-- The branch of `post_movement` on the entries that the key already has.
unfoldable pub replay_or_post :
    Option ℕ → LedgerMovement → List LedgerEntry → Action LedgerPostResult
unfolding post_entries
replay_or_post transaction_id m [] = post_entries transaction_id m
replay_or_post transaction_id m (entry ∷ entries) = do
  require (not (any (is_foreign m.escrow_id) (entry ∷ entries))) ledger_idempotency_conflict
  require (is_balanced (entry ∷ entries)) ledger_unbalanced
  pure (record {
    entry_group_id = entry.entry_group_id;
    created_entries = 0;
    was_idempotent_replay = true;
  })

-- `post_movement`, with the transaction of the movement's escrow.
unfoldable pub post_movement : Option ℕ → LedgerMovement → Action LedgerPostResult
post_movement transaction_id movement = do
  let m = normalized movement
  check_movement m
  existing ← gets (λ db. entries_by_idempotency_key m.idempotency_key db.ledger_entries)
  replay_or_post transaction_id m existing

abbrev pub is_held_entry : ℕ → LedgerEntry → Bool
is_held_entry escrow_id entry =
    entry.escrow_id == escrow_id && text_eq entry.account_code escrow_held_account

abbrev pub signed_amount : LedgerEntry → ℤ
signed_amount entry = elim entry.side [
  | debit ↦ pos entry.amount
  | credit ↦ pos 0 -ℤ pos entry.amount
]

-- `get_escrow_held_balance`
unfoldable pub get_escrow_held_balance : ℕ → List LedgerEntry → ℤ
get_escrow_held_balance escrow_id [] = pos 0
get_escrow_held_balance escrow_id (entry ∷ entries) =
    let rest = get_escrow_held_balance escrow_id entries in
    if is_held_entry escrow_id entry then signed_amount entry +ℤ rest else rest

abbrev pub funding_movement : Escrow → Text → LedgerMovement
funding_movement escrow idempotency_key = record {
  escrow_id = escrow.id;
  idempotency_key = idempotency_key;
  amount = escrow.amount_total - escrow.funded_amount;
  debit_account_code = escrow_held_account;
  credit_account_code = buyer_clearing_account;
  currency = kes;
}

-- The end of `post_escrow_funding`: `funded_amount` follows a posting that is new.
unfoldable pub mark_funded : Escrow → LedgerPostResult → Action Bool
mark_funded escrow result =
    if result.created_entries == 2
    then (do save_escrow (record escrow { funded_amount = escrow.amount_total }); pure true)
    else pure false

-- `post_escrow_funding`. `funded_amount` never exceeds `amount_total` (a table constraint), so the
-- difference is exact.
unfoldable pub post_escrow_funding : Escrow → Text → Action Bool
unfolding mark_funded
post_escrow_funding escrow idempotency_key =
    if ltb escrow.funded_amount escrow.amount_total
    then (do
      result ← post_movement (some escrow.transaction_id) (funding_movement escrow idempotency_key)
      mark_funded escrow result)
    else pure false
