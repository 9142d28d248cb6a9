-- ===== src/Lifecycle/Sweep/Laws.antt =====
-- What the timeout sweep does to a database.
use vekro_backend.Base.{
  ℕ, ◌==◌, ◌≡◌, ◌≢◌, inl, inr, refl, sym, ap, ◌∙◌, subst, arith, true, false, Bool-cases, none,
  some, List, [], ◌∷◌, Table, lookup, insert, lookup-insert,
}
use vekro_backend.Model.Rows.{Transaction}
use vekro_backend.Model.Db.{Db}
use vekro_backend.Session.{
  Env, Session, Result, ok, err, request, pure, ◌>>=◌, ◌>>◌, Tentative, Tentative-bind,
  Tentative-later, with_value,
}
use vekro_backend.Lifecycle.History.{logged_status}
use vekro_backend.Lifecycle.Moves.{Act, Step}
use vekro_backend.Lifecycle.Deadlines.{
  Rule, at_door, no_dispatch, hold_release, return_not_sent, return_not_received, is_due,
}
use vekro_backend.Lifecycle.Effects.{is_status→≡, SameDeal, LogFollows, Moved, stored}
use vekro_backend.Lifecycle.Story.{IsLogged, Story, quiet, turn}
use vekro_backend.Lifecycle.Sweep.{
  time_out, finish_timeout, sweep_row, sweep_rows, all_rules, all_due, run_sweep, run_timeout_jobs,
  commit_if_any, is_any_counted, count_turn, no_counts, TimeoutSweepResult,
}
use vekro_backend.Lifecycle.Sweep.Effects.{
  status_before, status_after, due_status, time_out-Moved, time_out-status,
}
use vekro_backend.Lifecycle.Sweep.Counts.{due_counts, count_rows, any_counted, count_rows-due}
use vekro_backend.Lifecycle.Sweep.DueRows.{
  rule_of, rule_of-before, Has, IsDistinct, IsStored, NoRepeat, HasRule, Read, due-Read,
  due-IsDistinct, due_listed,
}

-- A turn of the sweep wrote the transaction `t` over by `x`.
abbrev Turned : Rule → Transaction → Session → Transaction → Session → Type 0
Turned rule t s x s' =
    SameDeal t x
    × LogFollows t x s s'
    × (s'.committed ≡ s.committed)
    × (s'.work.transactions ≡ insert t.id x s.work.transactions)
    × Step Act.time_out t.status x.status
    × (x.status ≡ status_after rule)

finished :
    (env : Env) (rule : Rule) (t t1 : Transaction) (s s1 : Session)
    → Moved Act.time_out t s t1 s1
    → t1.status ≡ status_after rule
    → Tentative s (λ _ s'. (x : Transaction) × Turned rule t s x s') (finish_timeout env rule t1 s1)
unfolding finish_timeout
finished env at_door t t1 s s1 m e =
    (record t1 { updated_at = env.now }, (m.0.0, m.0.1, m.0.2, stored t t1 _ s s1 m.0, m.1, e))
finished env _ t t1 s s1 m e =
    (record t1 { updated_at = env.now }, (m.0.0, m.0.1, m.0.2, stored t t1 _ s s1 m.0, m.1, e))

row-Turned :
    (env : Env) (rule : Rule) (t : Transaction) (s : Session)
    → is_due env.now rule t ≡ true
    → Tentative s (λ _ s'. (x : Transaction) × Turned rule t s x s') (sweep_row env (rule, t) s)
unfolding sweep_row
row-Turned env rule t s due =
    Tentative-bind (time_out env rule t) (finish_timeout env rule) s s
      (λ t1 s1. Moved Act.time_out t s t1 s1 × (t1.status ≡ status_after rule))
      (λ _ s'. (x : Transaction) × Turned rule t s x s')
      (with_value s (Moved Act.time_out t s) (λ t1. t1.status ≡ status_after rule)
        (time_out env rule t s) (time_out-Moved env rule t s (due_status env.now rule t due))
        (time_out-status env rule t s))
      (λ t1 s1 p. finished env rule t t1 s s1 p.0 p.1)

-- The rows that are left are as they were read, each of a transaction of its own.
abbrev AreLeft : ℕ → List (Rule × Transaction) → Table Transaction → Type 0
AreLeft now rows table =
    IsDistinct rows × ((r : Rule) (t : Transaction) → Has rows r t → Read now table r t)

-- What is stored and due is left.
abbrev CoversDue : ℕ → List (Rule × Transaction) → Table Transaction → Type 0
CoversDue now rows table =
    (k : ℕ) (r : Rule) (t : Transaction)
    → lookup k table ≡ some t
    → is_due now r t ≡ true
    → (t.id ≡ k) × Has rows r t

no_rule_after : (rule : Rule) → rule_of (status_after rule) ≡ none
unfolding rule_of
no_rule_after at_door = refl
no_rule_after no_dispatch = refl
no_rule_after hold_release = refl
no_rule_after return_not_sent = refl
no_rule_after return_not_received = refl

not_due_after :
    (now : ℕ) (rule r : Rule) (x : Transaction)
    → x.status ≡ status_after rule
    → is_due now r x ≢ true
not_due_after now rule r x e due =
    let before = is_status→≡ x.status (status_before r) (due_status now r x due) in
    let clash : none ≡ some r =
      sym (no_rule_after rule) ∙ ap rule_of (sym e ∙ before) ∙ rule_of-before r in
    cc

other_left :
    (now : ℕ) (rule : Rule) (t x : Transaction) (rows : List (Rule × Transaction))
    (table : Table Transaction)
    → AreLeft now ((rule, t) ∷ rows) table
    → AreLeft now rows (insert t.id x table)
other_left now rule t x rows table (d, left) = (
  d.1,
  λ r t' h.
      let read = left r t' (inr h) in
      let apart : t.id ≢ t'.id = λ e. d.0 r t' h (sym e) in
      (read.0, lookup-insert t.id t'.id x table ∙ ground arith),
)

still_covered :
    (now : ℕ) (rule : Rule) (t x : Transaction) (rows : List (Rule × Transaction))
    (table : Table Transaction)
    → x.status ≡ status_after rule
    → CoversDue now ((rule, t) ∷ rows) table
    → CoversDue now rows (insert t.id x table)
still_covered now rule t x rows table e covers k r t' found due =
    let seen = sym (lookup-insert t.id k x table) ∙ found in
    elim (Bool-cases (t.id == k)) [
      | inl here ↦
          let same : some x ≡ some t' = rw here at seen in
          let one : x ≡ t' = ground arith in
          absurd (not_due_after now rule r x e (ap (is_due now r) one ∙ due))
      | inr there ↦
          let known = covers k r t' (rw there at seen) due in
          elim known.1 [
            | inl (_, f) ↦ let key : t.id ≡ k = ap (λ y. y.id) f ∙ known.0 in ground arith
            | inr h ↦ (known.0, h)
          ]
    ]

-- What the turns on the rows left make of the database.
abbrev SweptTo : ℕ → Session → Session → Type 0
SweptTo now s s' =
    Story Act.time_out s.work s'.work
    × (s'.committed ≡ s.committed)
    × CoversDue now [] s'.work.transactions

rows-SweptTo :
    (env : Env) (rows : List (Rule × Transaction)) (counts : TimeoutSweepResult) (s : Session)
    → AreLeft env.now rows s.work.transactions
    → CoversDue env.now rows s.work.transactions
    → Tentative s
        (λ c s'. (c ≡ count_rows rows counts) × SweptTo env.now s s')
        (sweep_rows env rows counts s)
unfolding sweep_rows count_rows
rows-SweptTo env [] counts s left covers =
    (refl, (quiet s.work s.work refl (λ j. refl), refl, covers))
rows-SweptTo env ((rule, t) ∷ rows) counts s left covers =
    let read = left.1 rule t (inl (refl, refl)) in
    let next = count_turn rule counts in
    Tentative-bind (sweep_row env (rule, t)) (λ _. sweep_rows env rows next) s s
      (λ _ s1. (x : Transaction) × Turned rule t s x s1)
      (λ c s'. (c ≡ count_rows rows next) × SweptTo env.now s s') (row-Turned env rule t s read.0)
      (λ _ s1 w.
        let tx = w.1.3 in
        let left' : AreLeft env.now rows s1.work.transactions =
          subst (AreLeft env.now rows) (sym tx)
            (other_left env.now rule t w.0 rows s.work.transactions left) in
        let covers' : CoversDue env.now rows s1.work.transactions =
          subst (CoversDue env.now rows) (sym tx)
            (still_covered env.now rule t w.0 rows s.work.transactions w.1.5 covers) in
        Tentative-later s s1 (λ c s'. (c ≡ count_rows rows next) × SweptTo env.now s1 s')
          (λ c s'. (c ≡ count_rows rows next) × SweptTo env.now s s') (sweep_rows env rows next s1)
          w.1.2 (rows-SweptTo env rows next s1 left' covers')
          (λ _ s' (same, rest). (
            same,
            (
              turn s.work s1.work s'.work (t.id, t, w.0, read.1, tx, w.1.0, w.1.4, w.1.1.0, w.1.1.1)
                  rest.0,
              rest.1 ∙ w.1.2,
              rest.2,
            ),
          )))

-- What is committed after a sweep.
abbrev pub Cleared : ℕ → Db → Db → Type 0
Cleared now db db' =
    Story Act.time_out db db'
    × ((k : ℕ) (r : Rule) (t : Transaction)
        → lookup k db'.transactions ≡ some t
        → is_due now r t ≢ true)

none_due :
    (now : ℕ) (table : Table Transaction)
    → CoversDue now [] table
    → (k : ℕ) (r : Rule) (t : Transaction) → lookup k table ≡ some t
    → is_due now r t ≢ true
none_due now table covers k r t found due = (covers k r t found due).1

committed-Cleared :
    (env : Env) (rows : List (Rule × Transaction)) (db : Db)
    → AreLeft env.now rows db.transactions
    → CoversDue env.now rows db.transactions
    → Tentative
        (record { committed = db; work = db })
        (λ c s'. (c ≡ count_rows rows no_counts) × Cleared env.now db s'.committed)
        ((sweep_rows env rows no_counts >>= λ counts. (commit_if_any counts >> pure counts))
          (record { committed = db; work = db }))
unfolding count_rows
committed-Cleared env [] db left covers =
    unfold sweep_rows in
    (refl, (quiet db db refl (λ j. refl), none_due env.now db.transactions covers))
committed-Cleared env (row ∷ rows) db left covers =
    let s : Session = record { committed = db; work = db } in
    let sum = count_rows (row ∷ rows) no_counts in
    Tentative-bind (sweep_rows env (row ∷ rows) no_counts)
      (λ counts. commit_if_any counts >> pure counts) s s (λ c s'. (c ≡ sum) × SweptTo env.now s s')
      (λ c s'. (c ≡ sum) × Cleared env.now db s'.committed)
      (rows-SweptTo env (row ∷ rows) no_counts s left covers)
      (λ c s1 (same, swept).
        let any : is_any_counted c ≡ true =
          ap is_any_counted same ∙ any_counted row rows no_counts in
        rw any (same, (swept.0, none_due env.now s1.work.transactions swept.2)))

has_rule : (r : Rule) → HasRule all_rules r
has_rule at_door = inl refl
has_rule no_dispatch = inr (inl refl)
has_rule hold_release = inr (inr (inl refl))
has_rule return_not_sent = inr (inr (inr (inl refl)))
has_rule return_not_received = inr (inr (inr (inr (inl refl))))

rules_once : NoRepeat all_rules
rules_once = ground arith

pub sweep-Cleared :
    (env : Env) (db : Db)
    → IsLogged db
    → Tentative
        (record { committed = db; work = db })
        (λ c s'. (c ≡ due_counts env.now db.transactions) × Cleared env.now db s'.committed)
        (run_timeout_jobs env (record { committed = db; work = db }))
unfolding run_timeout_jobs run_sweep
sweep-Cleared env db logged =
    let stored : IsStored db.transactions = λ k t h. (logged.1 k t h).0 in
    subst
      (λ n.
        Tentative (record { committed = db; work = db })
          (λ c s'. (c ≡ n) × Cleared env.now db s'.committed)
          (run_sweep env db.transactions (record { committed = db; work = db })))
      (count_rows-due env.now db.transactions)
      (committed-Cleared env (all_due env.now db.transactions) db
        (
          due-IsDistinct env.now all_rules db.transactions logged.0 stored rules_once,
          λ r t h. (due-Read env.now all_rules db.transactions r t logged.0 stored h).1,
        )
        (λ k r t h due.
          (stored k t h, due_listed env.now all_rules db.transactions k r t h (has_rule r) due)))

-- How a sweep ends, of what it returned and what is committed then.
abbrev pub SweepEnds : ℕ → Db → Result TimeoutSweepResult × Db → Type 0
SweepEnds now db (ok counts, db') =
    (counts ≡ due_counts now db.transactions)
    × ((k : ℕ) (r : Rule) (t : Transaction)
        → lookup k db'.transactions ≡ some t
        → is_due now r t ≡ false)
SweepEnds now db (err e, db') = db' ≡ db

ended :
    (now : ℕ) (db : Db) (r : Result TimeoutSweepResult × Session)
    → Tentative
        (record { committed = db; work = db })
        (λ c s'. (c ≡ due_counts now db.transactions) × Cleared now db s'.committed)
        r
    → SweepEnds now db (r.0, r.1.committed)
ended now db (ok a, s') h = (h.0, λ k q t found. ground (arith, h.1.1 k q t found))
ended now db (err e, s') h = h

-- A sweep of a database that is logged either succeeds, counts the transactions that each rule
-- found due, and leaves no stored transaction that a rule finds due at the time of the sweep; or it
-- raises and leaves the database as it was.
pub sweep_clears :
    (env : Env) (db : Db) → IsLogged db → SweepEnds env.now db (request (run_timeout_jobs env) db)
sweep_clears env db logged =
    let s : Session = record { committed = db; work = db } in
    ended env.now db (run_timeout_jobs env s) (sweep-Cleared env db logged)

Story-of :
    (now : ℕ) (db : Db) (r : Result TimeoutSweepResult × Session)
    → Tentative
        (record { committed = db; work = db })
        (λ c s'. (c ≡ due_counts now db.transactions) × Cleared now db s'.committed)
        r
    → Story Act.time_out db r.1.committed
Story-of now db (ok a, s') h = h.1.0
Story-of now db (err e, s') h =
    quiet db s'.committed (ap (λ x. x.transactions) h)
      (λ j. ap (λ x. logged_status j x.anchor_events) h)

pub sweep-Story :
    (env : Env) (db : Db)
    → IsLogged db
    → Story Act.time_out db (request (run_timeout_jobs env) db).1
sweep-Story env db logged =
    let s : Session = record { committed = db; work = db } in
    Story-of env.now db (run_timeout_jobs env s) (sweep-Cleared env db logged)
