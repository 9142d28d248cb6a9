-- ===== src/Lifecycle/Requests/Laws.antt =====
-- What every request, and every sequence of them, keeps.
use vekro_backend.Base.{
  ℕ, ◌≡◌, ◌≢◌, inl, inr, refl, sym, ap, ◌∙◌, subst, Option, some, none, List, [], ◌∷◌, lookup, true,
}
use vekro_backend.Model.Status.{TransactionStatus}
use vekro_backend.Model.Rows.{Transaction}
use vekro_backend.Model.Db.{Db}
use vekro_backend.Session.{
  Action, pure, ◌>>◌, Env, Error, Session, Result, ok, err, request, Outcome,
}
use vekro_backend.Lifecycle.Moves.{Act, is_settled, Step-settled}
use vekro_backend.Lifecycle.Effects.{SameDeal}
use vekro_backend.Lifecycle.Story.{IsLogged, Story, Story-IsLogged, Story-Reached}
use vekro_backend.Lifecycle.Sweep.{run_timeout_jobs}
use vekro_backend.Lifecycle.Sweep.Laws.{sweep-Story}
use vekro_backend.Lifecycle.Requests.Steps.{perform-Accepted, request-Story}
use vekro_backend.Lifecycle.Requests.{
  Request, perform, serve, run, Call, asked, swept, act_of, call_act, Trail, arrived_at, step_of,
}
use vekro_backend.Lifecycle.Effects.Quiet.{Accepted}

done_through :
    {A : Type 0} (r : Result A × Session) (s : Session)
    → (((λ _. r) >> pure tt) s).1.committed ≡ r.1.committed
done_through (ok a, s') s = refl
done_through (err e, s') s = refl

-- `m >> pure tt` commits what `m` does.
done_committed :
    {A : Type 0} (m : Action A) (db : Db) → (request (m >> pure tt) db).1 ≡ (request m db).1
done_committed m db = let s : Session = record { committed = db; work = db } in done_through (m s) s

call-Story :
    (env : Env) (call : Call) (db : Db)
    → IsLogged db
    → Story (call_act call) db (request (run env call) db).1
unfolding run
call-Story env (asked r) db l = request-Story env r db
call-Story env swept db l =
    subst (Story (call_act swept) db) (sym (done_committed (run_timeout_jobs env) db))
      (sweep-Story env db l)

call-IsLogged :
    (env : Env) (call : Call) (db : Db) → IsLogged db → IsLogged (request (run env call) db).1
call-IsLogged env call db l =
    Story-IsLogged db (request (run env call) db).1 l (call-Story env call db l)

-- Whatever requests and timeout sweeps are served, in whatever order and by whomever: if the
-- transactions are stored under their identifiers, each once, and the anchor log tells the status
-- of each, all this still holds afterwards.
pub log_tells_status : (es : List (Env × Call)) (db : Db) → IsLogged db → IsLogged (serve es db)
unfolding serve
log_tells_status [] db l = l
log_tells_status ((env, call) ∷ es) db l =
    log_tells_status es (request (run env call) db).1 (call-IsLogged env call db l)

-- The transaction `t`, stored under `j`, after calls one after another: still there, with the same
-- parties, listing and amount, and in a status to which the calls can have taken it.
abbrev pub FollowsCalls : List (Env × Call) → ℕ → Transaction → Db → Type 0
FollowsCalls es j t db =
    (t' : Transaction) × (lookup j db.transactions ≡ some t')
    × SameDeal t t'
    × Trail es t.status t'.status

-- Whatever requests and timeout sweeps are served on a database that is logged, every transaction
-- that was stored still is, under the same key, with the same parties, listing and amount, and each
-- call in its turn left its status or changed it by one move, one that Lifecycle.Moves lists for that
-- kind of request or for the sweep.
pub status_follows_moves :
    (es : List (Env × Call)) (db : Db)
    → IsLogged db
    → (j : ℕ) (t : Transaction) → lookup j db.transactions ≡ some t
    → FollowsCalls es j t (serve es db)
unfolding serve
status_follows_moves [] db l j t h = (t, h, (refl, refl, refl, refl, refl), arrived_at)
status_follows_moves ((env, call) ∷ es) db l j t h =
    let next = (request (run env call) db).1 in
    let (t1, found, d, p) = Story-Reached db next l (call-Story env call db l) j t h in
    let (t2, found2, e, q) =
      status_follows_moves es next (call-IsLogged env call db l) j t1 found in
    (t2, found2, (e.0 ∙ d.0, e.1 ∙ d.1, e.2 ∙ d.2, e.3 ∙ d.3, e.4 ∙ d.4), step_of p q)

failed-same :
    (act : Act) (env : Env) (db : Db) (e : Error) (r : Result (Unit {0}) × Session)
    → Outcome
        (record { committed = db; work = db })
        (λ _ s'. Accepted act env (record { committed = db; work = db }) s')
        r
    → r.0 ≡ err e
    → e ≢ Error.invalid_otp
    → r.1.committed ≡ db
failed-same act env db e (ok x, s) o h n = cc
failed-same act env db e (err e', s) (inl same) h n = same
failed-same act env db e (err e', s) (inr (wrong, _)) h n =
    let named : e ≡ Error.invalid_otp = cc in absurd (n named)

-- A request that raises any exception but the one for a wrong delivery code leaves the database as
-- it was.
pub request_atomic :
    (env : Env) (r : Request) (db : Db) (e : Error)
    → (request (perform env r) db).0 ≡ err e
    → e ≢ Error.invalid_otp
    → (request (perform env r) db).1 ≡ db
request_atomic env r db e h n =
    let s : Session = record { committed = db; work = db } in
    failed-same (act_of r) env db e (perform env r s) (perform-Accepted env r s) h n

abbrev status_or : Option Transaction → TransactionStatus → TransactionStatus
status_or none a = a
status_or (some t) _ = t.status

Trail-settled :
    {es : List (Env × Call)} {a b : TransactionStatus} → Trail es a b → is_settled a ≡ true → b ≡ a
Trail-settled arrived_at h = refl
Trail-settled (step_of p q) h =
    let here = Step-settled p h in Trail-settled q (ap is_settled here ∙ h) ∙ here

-- Once a transaction of a database that is logged is released, refunded or resolved, its status is
-- the same after any sequence of requests and timeout sweeps.
pub settled_stays :
    (es : List (Env × Call)) (db : Db)
    → IsLogged db
    → (j : ℕ) (t t' : Transaction) → lookup j db.transactions ≡ some t
    → is_settled t.status ≡ true
    → lookup j (serve es db).transactions ≡ some t'
    → t'.status ≡ t.status
settled_stays es db l j t t' h settled h' =
    let r = status_follows_moves es db l j t h in
    let same : r.0.status ≡ t.status = Trail-settled r.3 settled in
    let one : some r.0 ≡ some t' = sym r.1 ∙ h' in
    subst (λ o. status_or o t.status ≡ t.status) one same
