-- ===== src/Lifecycle/Sweep/Counts.antt =====
-- What the counters of the timeout sweep come to.
use vekro_backend.Base.{
  ℕ, suc, ◌+◌, ◌≡◌, refl, ap, ◌∙◌, arith, true, List, [], ◌∷◌, ◌++◌, length, Table,
}
use vekro_backend.Model.Rows.{Transaction}
use vekro_backend.Lifecycle.Deadlines.{
  Rule, at_door, no_dispatch, hold_release, return_not_sent, return_not_received, due_rows,
}
use vekro_backend.Lifecycle.Sweep.{
  TimeoutSweepResult, no_counts, count_turn, is_any_counted, tagged, due_under, all_due,
}

-- How many transactions each rule finds due.
abbrev pub due_counts : ℕ → Table Transaction → TimeoutSweepResult
due_counts now table = record {
  at_door_timeout_count = length (due_rows now at_door table);
  no_dispatch_timeout_count = length (due_rows now no_dispatch table);
  hold_auto_release_count = length (due_rows now hold_release table);
  dispute_buyer_sent_back_timeout_count = length (due_rows now return_not_sent table);
  dispute_seller_received_timeout_count = length (due_rows now return_not_received table);
}

-- The counters after turns on all rows.
unfoldable pub count_rows : List (Rule × Transaction) → TimeoutSweepResult → TimeoutSweepResult
count_rows [] c = c
count_rows ((rule, _) ∷ rows) c = count_rows rows (count_turn rule c)

any_counted_turn :
    (rule : Rule) (c : TimeoutSweepResult) → is_any_counted (count_turn rule c) ≡ true
any_counted_turn at_door c = ground arith
any_counted_turn no_dispatch c = ground arith
any_counted_turn hold_release c = ground arith
any_counted_turn return_not_sent c = ground arith
any_counted_turn return_not_received c = ground arith

any_counted_still :
    (rows : List (Rule × Transaction)) (c : TimeoutSweepResult)
    → is_any_counted c ≡ true
    → is_any_counted (count_rows rows c) ≡ true
unfolding count_rows
any_counted_still [] c h = h
any_counted_still ((rule, _) ∷ rows) c h =
    any_counted_still rows (count_turn rule c) (any_counted_turn rule c)

pub any_counted :
    (row : Rule × Transaction) (rows : List (Rule × Transaction)) (c : TimeoutSweepResult)
    → is_any_counted (count_rows (row ∷ rows) c) ≡ true
unfolding count_rows
any_counted (rule, _) rows c = any_counted_still rows (count_turn rule c) (any_counted_turn rule c)

count_rows-append :
    (xs ys : List (Rule × Transaction)) (c : TimeoutSweepResult)
    → count_rows (xs ++ ys) c ≡ count_rows ys (count_rows xs c)
unfolding count_rows
count_rows-append [] ys c = refl
count_rows-append ((rule, _) ∷ xs) ys c = count_rows-append xs ys (count_turn rule c)

abbrev count_turns : Rule → ℕ → TimeoutSweepResult → TimeoutSweepResult
count_turns at_door n c = record c { at_door_timeout_count = c.at_door_timeout_count + n }
count_turns no_dispatch n c = record c {
  no_dispatch_timeout_count = c.no_dispatch_timeout_count + n;
}
count_turns hold_release n c = record c { hold_auto_release_count = c.hold_auto_release_count + n }
count_turns return_not_sent n c = record c {
  dispute_buyer_sent_back_timeout_count = c.dispute_buyer_sent_back_timeout_count + n;
}
count_turns return_not_received n c = record c {
  dispute_seller_received_timeout_count = c.dispute_seller_received_timeout_count + n;
}

no_turns : (rule : Rule) (c : TimeoutSweepResult) → c ≡ count_turns rule 0 c
no_turns at_door c = ground arith
no_turns no_dispatch c = ground arith
no_turns hold_release c = ground arith
no_turns return_not_sent c = ground arith
no_turns return_not_received c = ground arith

one_turn_more :
    (rule : Rule) (n : ℕ) (c : TimeoutSweepResult)
    → count_turns rule n (count_turn rule c) ≡ count_turns rule (suc n) c
one_turn_more at_door n c = ground arith
one_turn_more no_dispatch n c = ground arith
one_turn_more hold_release n c = ground arith
one_turn_more return_not_sent n c = ground arith
one_turn_more return_not_received n c = ground arith

count_rows-tagged :
    (rule : Rule) (ts : List Transaction) (c : TimeoutSweepResult)
    → count_rows (tagged rule ts) c ≡ count_turns rule (length ts) c
unfolding count_rows
count_rows-tagged rule [] c = no_turns rule c
count_rows-tagged rule (t ∷ ts) c =
    count_rows-tagged rule ts (count_turn rule c) ∙ one_turn_more rule (length ts) c

abbrev turns_under : ℕ → List Rule → Table Transaction → TimeoutSweepResult → TimeoutSweepResult
turns_under now [] table c = c
turns_under now (rule ∷ rules) table c =
    turns_under now rules table (count_turns rule (length (due_rows now rule table)) c)

count_rows-under :
    (now : ℕ) (rules : List Rule) (table : Table Transaction) (c : TimeoutSweepResult)
    → count_rows (due_under now rules table) c ≡ turns_under now rules table c
unfolding due_under count_rows
count_rows-under now [] table c = refl
count_rows-under now (rule ∷ rules) table c =
    let due = due_rows now rule table in
    count_rows-append (tagged rule due) (due_under now rules table) c
    ∙ ap (count_rows (due_under now rules table)) (count_rows-tagged rule due c)
    ∙ count_rows-under now rules table (count_turns rule (length due) c)

-- The counters come to the numbers of transactions that are due.
pub count_rows-due :
    (now : ℕ) (table : Table Transaction)
    → count_rows (all_due now table) no_counts ≡ due_counts now table
count_rows-due now table = count_rows-under now _ table no_counts ∙ ground arith
