-- ===== src/Lifecycle/Sweep/DueRows.antt =====
-- The rows that a sweep reads: each stored row that is due, once.
use vekro_backend.Base.{
  ℕ, ◌==◌, ◌≡◌, ◌≢◌, ◌⊎◌, inl, inr, refl, sym, ap, ◌∙◌, subst, arith, true, Bool-cases, Option,
  none, some, List, [], ◌∷◌, ◌++◌, Table, lookup, eqb→eq, eqb_refl,
}
use vekro_backend.Model.Status.{TransactionStatus}
use vekro_backend.Model.Rows.{Transaction}
use vekro_backend.Lifecycle.Deadlines.{
  Rule, at_door, no_dispatch, hold_release, return_not_sent, return_not_received, is_due, due_rows,
}
use vekro_backend.Lifecycle.Effects.{is_status→≡}
use vekro_backend.Lifecycle.Story.{IsKeyed}
use vekro_backend.Lifecycle.Sweep.{tagged, due_under}
use vekro_backend.Lifecycle.Sweep.Effects.{status_before, due_status}

-- The row `(r, t)` is in the list.
abbrev pub Has : List (Rule × Transaction) → Rule → Transaction → Type 0
Has [] r t = ⊥
Has ((r', t') ∷ rows) r t = ((r' ≡ r) × (t' ≡ t)) ⊎ Has rows r t

-- No two rows are of one transaction.
abbrev pub IsDistinct : List (Rule × Transaction) → Type 0
IsDistinct [] = Unit {0}
IsDistinct ((r, t) ∷ rows) =
    ((r' : Rule) (t' : Transaction) → Has rows r' t' → t'.id ≢ t.id) × IsDistinct rows

Has-append :
    (xs ys : List (Rule × Transaction)) (r : Rule) (t : Transaction)
    → Has (xs ++ ys) r t
    → Has xs r t ⊎ Has ys r t
Has-append [] ys r t h = inr h
Has-append (x ∷ xs) ys r t (inl same) = inl (inl same)
Has-append (x ∷ xs) ys r t (inr h) = elim (Has-append xs ys r t h) [
  | inl a ↦ inl (inr a)
  | inr b ↦ inr b
]

Has-left :
    (xs ys : List (Rule × Transaction)) (r : Rule) (t : Transaction)
    → Has xs r t
    → Has (xs ++ ys) r t
Has-left [] ys r t h = elim h [ ]
Has-left (x ∷ xs) ys r t (inl same) = inl same
Has-left (x ∷ xs) ys r t (inr h) = inr (Has-left xs ys r t h)

Has-right :
    (xs ys : List (Rule × Transaction)) (r : Rule) (t : Transaction)
    → Has ys r t
    → Has (xs ++ ys) r t
Has-right [] ys r t h = h
Has-right (x ∷ xs) ys r t h = inr (Has-right xs ys r t h)

IsDistinct-append :
    (xs ys : List (Rule × Transaction))
    → IsDistinct xs
    → IsDistinct ys
    → ((r r' : Rule) (t t' : Transaction) → Has xs r t → Has ys r' t' → t'.id ≢ t.id)
    → IsDistinct (xs ++ ys)
IsDistinct-append [] ys dx dy apart = dy
IsDistinct-append ((r, t) ∷ xs) ys dx dy apart = (
  (λ r' t' h. elim (Has-append xs ys r' t' h) [
    | inl a ↦ dx.0 r' t' a
    | inr b ↦ apart r r' t t' (inl (refl, refl)) b
  ]),
  IsDistinct-append xs ys dx.1 dy (λ r1 r' t1 t' h. apart r1 r' t1 t' (inr h)),
)

-- Each row is stored under its own identifier.
abbrev pub IsStored : Table Transaction → Type 0
IsStored table = (k : ℕ) (t : Transaction) → lookup k table ≡ some t → t.id ≡ k

further :
    (k j : ℕ) (x t : Transaction) (rows : Table Transaction)
    → lookup k rows ≡ none
    → lookup j rows ≡ some t
    → lookup j ((k, x) ∷ rows) ≡ some t
unfolding lookup
further k j x t rows free h = elim (Bool-cases (k == j)) [
  | inl same ↦
      let none_there : lookup j rows ≡ none =
        ap (λ i. lookup i rows) (sym (eqb→eq k j same)) ∙ free in
      cc
  | inr other ↦ rw other h
]

-- The rows that one rule finds are stored and due.
found_due :
    (now : ℕ) (rule : Rule) (table : Table Transaction) (r : Rule) (t : Transaction)
    → IsKeyed table
    → Has (tagged rule (due_rows now rule table)) r t
    → (rule ≡ r) × (is_due now rule t ≡ true) × ((k : ℕ) × (lookup k table ≡ some t))
unfolding due_rows lookup
found_due now rule [] r t keyed h = elim h [ ]
found_due now rule ((k, x) ∷ rows) r t keyed h =
    let rest = tagged rule (due_rows now rule rows) in
    let ih = found_due now rule rows r t keyed.1 in
    elim (Bool-cases (is_due now rule x)) [
      | inl due ↦
          let h' : ((rule ≡ r) × (x ≡ t)) ⊎ Has rest r t = rw due at h in
          elim h' [
            | inl (e, f) ↦ (e, ap (is_due now rule) (sym f) ∙ due, (k, rw eqb_refl (ap some f)))
            | inr g ↦
                let found = ih g in
                (found.0, found.1, (found.2.0, further k found.2.0 x t rows keyed.0 found.2.1))
          ]
      | inr idle ↦
          let g : Has rest r t = rw idle at h in
          let found = ih g in
          (found.0, found.1, (found.2.0, further k found.2.0 x t rows keyed.0 found.2.1))
    ]

-- Each stored row that is due is found.
due_found :
    (now : ℕ) (rule : Rule) (table : Table Transaction) (k : ℕ) (t : Transaction)
    → lookup k table ≡ some t
    → is_due now rule t ≡ true
    → Has (tagged rule (due_rows now rule table)) rule t
unfolding due_rows lookup
due_found now rule [] k t h due = cc
due_found now rule ((j, x) ∷ rows) k t h due = elim (Bool-cases (j == k)) [
  | inl here ↦
      let same : some x ≡ some t = rw here at h in
      let e : x ≡ t = ground arith in rw (ap (is_due now rule) e ∙ due) (inl (refl, e))
  | inr there ↦
      let ih = due_found now rule rows k t (rw there at h) due in
      elim (Bool-cases (is_due now rule x)) [
        | inl taken ↦ rw taken (inr ih)
        | inr idle ↦ rw idle ih
      ]
]

head_row : (k : ℕ) (x : Transaction) (rows : Table Transaction) → lookup k ((k, x) ∷ rows) ≡ some x
unfolding lookup
head_row k x rows = rw eqb_refl

two_rows :
    (k j : ℕ) (x t : Transaction) (rows : Table Transaction)
    → lookup k rows ≡ none
    → lookup j rows ≡ some t
    → x.id ≡ k
    → t.id ≡ j
    → t.id ≢ x.id
two_rows k j x t rows free h e f same =
    let key : j ≡ k = sym f ∙ same ∙ e in
    let there : lookup k rows ≡ some t = ap (λ i. lookup i rows) (sym key) ∙ h in
    let clash : none ≡ some t = sym free ∙ there in cc

rule-IsDistinct :
    (now : ℕ) (rule : Rule) (table : Table Transaction)
    → IsKeyed table
    → IsStored table
    → IsDistinct (tagged rule (due_rows now rule table))
unfolding due_rows
rule-IsDistinct now rule [] keyed stored = tt
rule-IsDistinct now rule ((k, x) ∷ rows) keyed stored =
    let tail : IsStored rows = λ j t h. stored j t (further k j x t rows keyed.0 h) in
    let ih = rule-IsDistinct now rule rows keyed.1 tail in
    elim (Bool-cases (is_due now rule x)) [
      | inl taken ↦ rw taken (
        (λ r t h.
            let found = (found_due now rule rows r t keyed.1 h).2 in
            two_rows k found.0 x t rows keyed.0 found.1 (stored k x (head_row k x rows))
              (tail found.0 t found.1)),
        ih,
      )
      | inr idle ↦ rw idle ih
    ]

-- The rule is in the list.
abbrev pub HasRule : List Rule → Rule → Type 0
HasRule [] r = ⊥
HasRule (x ∷ xs) r = (x ≡ r) ⊎ HasRule xs r

abbrev pub Apart : Rule → List Rule → Type 0
Apart r [] = Unit {0}
Apart r (x ∷ xs) = (r ≢ x) × Apart r xs

-- No rule stands twice in the list.
abbrev pub NoRepeat : List Rule → Type 0
NoRepeat [] = Unit {0}
NoRepeat (r ∷ rs) = Apart r rs × NoRepeat rs

Apart-of : (r x : Rule) (rs : List Rule) → Apart r rs → HasRule rs x → r ≢ x
Apart-of r x [] a h e = elim h [ ]
Apart-of r x (y ∷ rs) a (inl same) e = a.0 (e ∙ sym same)
Apart-of r x (y ∷ rs) a (inr h) e = Apart-of r x rs a.1 h e

-- What is known of a row that the sweep has read.
abbrev pub Read : ℕ → Table Transaction → Rule → Transaction → Type 0
Read now table r t = (is_due now r t ≡ true) × (lookup t.id table ≡ some t)

pub due-Read :
    (now : ℕ) (rules : List Rule) (table : Table Transaction) (r : Rule) (t : Transaction)
    → IsKeyed table
    → IsStored table
    → Has (due_under now rules table) r t
    → HasRule rules r × Read now table r t
unfolding due_under
due-Read now [] table r t keyed stored h = elim h [ ]
due-Read now (rule ∷ rules) table r t keyed stored h =
    elim (Has-append (tagged rule (due_rows now rule table)) (due_under now rules table) r t h) [
      | inl a ↦
          let found = found_due now rule table r t keyed a in
          let key = stored found.2.0 t found.2.1 in
          (
            inl found.0,
            (
              ap (λ x. is_due now x t) (sym found.0) ∙ found.1,
              ap (λ i. lookup i table) key ∙ found.2.1,
            ),
          )
      | inr b ↦ let rest = due-Read now rules table r t keyed stored b in (inr rest.0, rest.1)
    ]

-- A transaction is due under one rule at most.
unfoldable pub rule_of : TransactionStatus → Option Rule
rule_of TransactionStatus.at_door_pending_inspection = some at_door
rule_of TransactionStatus.locked = some no_dispatch
rule_of TransactionStatus.hold_24h = some hold_release
rule_of TransactionStatus.disputed_functional = some return_not_sent
rule_of TransactionStatus.return_in_transit = some return_not_received
rule_of _ = none

pub rule_of-before : (r : Rule) → rule_of (status_before r) ≡ some r
unfolding rule_of
rule_of-before at_door = refl
rule_of-before no_dispatch = refl
rule_of-before hold_release = refl
rule_of-before return_not_sent = refl
rule_of-before return_not_received = refl

pub one_rule :
    (now : ℕ) (r r' : Rule) (t : Transaction)
    → is_due now r t ≡ true
    → is_due now r' t ≡ true
    → r ≡ r'
one_rule now r r' t h h' =
    let e = is_status→≡ t.status (status_before r) (due_status now r t h) in
    let e' = is_status→≡ t.status (status_before r') (due_status now r' t h') in
    let both : some r ≡ some r' =
      sym (rule_of-before r) ∙ ap rule_of (sym e ∙ e') ∙ rule_of-before r' in
    ground arith

-- No transaction is read twice.
pub due-IsDistinct :
    (now : ℕ) (rules : List Rule) (table : Table Transaction)
    → IsKeyed table
    → IsStored table
    → NoRepeat rules
    → IsDistinct (due_under now rules table)
unfolding due_under
due-IsDistinct now [] table keyed stored once = tt
due-IsDistinct now (rule ∷ rules) table keyed stored once =
    IsDistinct-append (tagged rule (due_rows now rule table)) (due_under now rules table)
      (rule-IsDistinct now rule table keyed stored)
      (due-IsDistinct now rules table keyed stored once.1)
      (λ r r' t t' h h' same.
        let first = found_due now rule table r t keyed h in
        let second = due-Read now rules table r' t' keyed stored h' in
        let there = stored first.2.0 t first.2.1 in
        let one : some t ≡ some t' =
          sym first.2.1 ∙ ap (λ i. lookup i table) (sym there ∙ sym same) ∙ second.1.1 in
        let e : t ≡ t' = ground arith in
        Apart-of rule r' rules once.0 second.0
          (one_rule now rule r' t first.1 (ap (is_due now r') e ∙ second.1.0)))

-- Each stored row that is due under one of the rules is read.
pub due_listed :
    (now : ℕ) (rules : List Rule) (table : Table Transaction) (k : ℕ) (r : Rule) (t : Transaction)
    → lookup k table ≡ some t
    → HasRule rules r
    → is_due now r t ≡ true
    → Has (due_under now rules table) r t
unfolding due_under
due_listed now [] table k r t found h due = elim h [ ]
due_listed now (rule ∷ rules) table k r t found (inl same) due =
    Has-left (tagged rule (due_rows now rule table)) (due_under now rules table) r t (
      subst (λ x. Has (tagged rule (due_rows now rule table)) x t) same
        (due_found now rule table k t found (ap (λ x. is_due now x t) same ∙ due)))
due_listed now (rule ∷ rules) table k r t found (inr h) due =
    Has-right (tagged rule (due_rows now rule table)) (due_under now rules table) r t
      (due_listed now rules table k r t found h due)
