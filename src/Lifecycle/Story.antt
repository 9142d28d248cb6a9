-- ===== src/Lifecycle/Story.antt =====
-- How a database goes on in an act: transaction after transaction, each by a step of the act.
use vekro_backend.Base.{
  ℕ, ◌==◌, ◌≡◌, ◌≢◌, inl, inr, refl, sym, ap, ◌∙◌, subst, some, none, [], ◌∷◌, lookup, Table,
  insert, lookup-insert, eqb→eq, Bool-cases, arith, true, if◌then◌else◌,
}
use vekro_backend.Model.Rows.{Transaction}
use vekro_backend.Model.Db.{Db}
use vekro_backend.Lifecycle.History.{logged_status}
use vekro_backend.Lifecycle.Moves.{Act, Step, stay, Step-trans}
use vekro_backend.Lifecycle.Effects.{SameDeal}

-- One stored transaction was written over by `x`, a step of the act further.
abbrev pub Rewritten : Act → Db → Db → Type 0
Rewritten act db db' =
    (k : ℕ) × (t x : Transaction) × (lookup k db.transactions ≡ some t)
    × (db'.transactions ≡ insert t.id x db.transactions)
    × SameDeal t x
    × Step act t.status x.status
    × (logged_status t.id db.anchor_events ≡ t.status
        → logged_status t.id db'.anchor_events ≡ x.status)
    × ((j : ℕ) → t.id ≢ j → logged_status j db'.anchor_events ≡ logged_status j db.anchor_events)

-- No two rows have the same key.
abbrev pub IsKeyed : Table Transaction → Type 0
IsKeyed [] = Unit {0}
IsKeyed ((k, _) ∷ rows) = (lookup k rows ≡ none) × IsKeyed rows

pub insert-IsKeyed :
    (k : ℕ) (x : Transaction) (m : Table Transaction) → IsKeyed m → IsKeyed (insert k x m)
unfolding insert lookup
insert-IsKeyed k x [] h = (refl, tt)
insert-IsKeyed k x ((j, y) ∷ m) (free, h) = elim (Bool-cases (j == k)) [
  | inl here ↦ rw here (rw (eqb→eq j k here) at free, h)
  | inr there ↦ rw there (ground (arith, lookup-insert k j x m), insert-IsKeyed k x m h)
]

-- The transactions are stored under their identifiers, each once, and the anchor log tells the
-- status of each.
abbrev pub IsLogged : Db → Type 0
IsLogged db =
    IsKeyed db.transactions
    × ((j : ℕ) (t : Transaction)
        → lookup j db.transactions ≡ some t
        → (t.id ≡ j) × (logged_status j db.anchor_events ≡ t.status))

-- Where the transaction `t`, stored under `j`, has come to.
abbrev pub Reached : Act → ℕ → Transaction → Db → Type 0
Reached act j t db =
    (t' : Transaction) × (lookup j db.transactions ≡ some t')
    × SameDeal t t'
    × Step act t.status t'.status

pub written :
    (k j : ℕ) (x : Transaction) (db db' : Db)
    → db'.transactions ≡ insert k x db.transactions
    → lookup j db'.transactions ≡ (if k == j then some x else lookup j db.transactions)
written k j x db db' e = ap (lookup j) e ∙ lookup-insert k j x db.transactions

row_logged :
    {act : Act} (db db' : Db)
    → IsLogged db
    → Rewritten act db db'
    → (j : ℕ) (t' : Transaction) → lookup j db'.transactions ≡ some t'
    → (t'.id ≡ j) × (logged_status j db'.anchor_events ≡ t'.status)
row_logged {act = act} db db' l (k, t, x, found, tx, same, path, log, others) j t' h =
    elim (Bool-cases (t.id == j)) [
      | inl here ↦ ground (
        arith,
        written t.id j x db db' tx,
        l.1 k t found,
        log (rw (l.1 k t found).0 (l.1 k t found).1),
      )
      | inr there ↦ ground (arith, written t.id j x db db' tx, l.1 j t', others j)
    ]

pub Rewritten-IsLogged :
    {act : Act} (db db' : Db) → IsLogged db → Rewritten act db db' → IsLogged db'
Rewritten-IsLogged {act = act} db db' l w =
    (subst IsKeyed (sym w.4) (insert-IsKeyed w.1.id w.2 db.transactions l.0), row_logged db db' l w)

same_row :
    (i k j : ℕ) (m : Table Transaction) (a b : Transaction)
    → i ≡ k
    → (i == j) ≡ true
    → lookup k m ≡ some a
    → lookup j m ≡ some b
    → a ≡ b
same_row i k j m a b e f ha hb =
    let same : k ≡ j = sym e ∙ eqb→eq i j f in
    let both : some a ≡ some b = sym ha ∙ (rw same hb) in ground arith

pub Rewritten-Reached :
    {act : Act} (db db' : Db)
    → IsLogged db
    → Rewritten act db db'
    → (j : ℕ) (t : Transaction) → lookup j db.transactions ≡ some t
    → Reached act j t db'
Rewritten-Reached {act = act} db db' l (k, t1, x, found, tx, same, path, log, others) j t h =
    elim (Bool-cases (t1.id == j)) [
      | inl here ↦
          let key : t1.id ≡ k = (l.1 k t1 found).0 in
          let one : t1 ≡ t = same_row t1.id k j db.transactions t1 t key here found h in
          subst (λ y. Reached act j y db') one
            (x, ground (arith, written t1.id j x db db' tx), same, path)
      | inr there ↦
          (t, ground (arith, written t1.id j x db db' tx), (refl, refl, refl, refl, refl), stay)
    ]

pub Reached-trans :
    {act : Act} (j : ℕ) (t : Transaction) (db db' : Db)
    → (r : Reached act j t db) → Reached act j r.0 db'
    → Reached act j t db'
Reached-trans {act = act} j t db db' (t1, found1, d, p) (t2, found2, d', q) =
    (t2, found2, (d'.0 ∙ d.0, d'.1 ∙ d.1, d'.2 ∙ d.2, d'.3 ∙ d.3, d'.4 ∙ d.4), Step-trans p q)

-- Turn after turn a transaction takes a step of the act; or, in the end, none is touched.
pub data Story : Act → Db → Db → Type 0 where
  quiet :
      {act : Act} (db db' : Db)
      → db'.transactions ≡ db.transactions
      → ((j : ℕ) → logged_status j db'.anchor_events ≡ logged_status j db.anchor_events)
      → Story act db db'
  turn : {act : Act} (db mid db' : Db) → Rewritten act db mid → Story act mid db' → Story act db db'

pub Story-IsLogged : {act : Act} (db db' : Db) → IsLogged db → Story act db db' → IsLogged db'
Story-IsLogged {act = act} db db' l (quiet _ _ same told) = (
  subst IsKeyed (sym same) l.0,
  λ j t h. let row = l.1 j t (ap (lookup j) (sym same) ∙ h) in (row.0, told j ∙ row.1),
)
Story-IsLogged {act = act} db db' l (turn _ mid _ w more) =
    Story-IsLogged mid db' (Rewritten-IsLogged db mid l w) more

pub Story-Reached :
    {act : Act} (db db' : Db)
    → IsLogged db
    → Story act db db'
    → (j : ℕ) (t : Transaction) → lookup j db.transactions ≡ some t
    → Reached act j t db'
Story-Reached {act = act} db db' l (quiet _ _ same _) j t h =
    (t, ap (lookup j) same ∙ h, (refl, refl, refl, refl, refl), stay)
Story-Reached {act = act} db db' l (turn _ mid _ w more) j t h =
    let first = Rewritten-Reached db mid l w j t h in
    Reached-trans j t mid db' first
      (Story-Reached mid db' (Rewritten-IsLogged db mid l w) more j first.0 first.1)
