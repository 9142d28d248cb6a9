-- ===== src/Accounts/Window/Bound.antt =====
-- How many codes a client can ask for within an hour.
use vekro_backend.Base.{
  ℕ, suc, ◌+◌, ◌≤◌, ◌<◌, ◌≡◌, refl, sym, ap, subst, arith, leb, ltb, true, false, Bool-cases, inl,
  inr, ◌&&◌, List, [], ◌∷◌, ◌++◌, Text, text_eq, text_eq→eq, if◌then◌else◌,
}
use mathlib.Core.List.{append_assoc, append-nil}
use vekro_backend.Accounts.Window.{no_buckets, client_hourly_limit, hour, is_hour_old}
use vekro_backend.Accounts.Window.Ordered.{count_live}
use vekro_backend.Accounts.Window.Refine.{
  Call, AreTimed, admitted_calls, window_calls, times_of, allows, times_of-append, quota_refines,
}

-- How many of the times lie in the hour from the start.
unfoldable pub count_within : ℕ → List ℕ → ℕ
count_within start [] = 0
count_within start (t ∷ ts) =
    let rest = count_within start ts in
    if leb start t && ltb t (start + hour) then suc rest else rest

abbrev IsBounded : List Call → Type 0
IsBounded calls =
    (client : Text) (start : ℕ) → count_within start (times_of client calls) ≤ client_hourly_limit

count_within-append :
    (start now : ℕ) (ts : List ℕ) → count_within start (ts ++ now ∷ []) ≤ count_within start ts + 1
unfolding count_within
count_within-append start now [] = ground arith
count_within-append start now (t ∷ ts) = ground (arith, count_within-append start now ts)

outside :
    (start now : ℕ) (ts : List ℕ)
    → (leb start now && ltb now (start + hour)) ≡ false
    → count_within start (ts ++ now ∷ []) ≡ count_within start ts
unfolding count_within
outside start now [] h = rw h refl
outside start now (t ∷ ts) h =
    let ih = outside start now ts h in
    ap (λ n. if leb start t && ltb t (start + hour) then suc n else n) ih

-- What lies in an hour that has now in it is less than an hour old.
within-live :
    (start now : ℕ) (ts : List ℕ)
    → now < start + hour
    → count_within start ts ≤ count_live (is_hour_old now) ts
unfolding count_within count_live
within-live start now [] h = omega arith
within-live start now (t ∷ ts) h = ground (arith, within-live start now ts h)

admit_within :
    (start now : ℕ) (ts : List ℕ)
    → ltb (count_live (is_hour_old now) ts) client_hourly_limit ≡ true
    → count_within start ts ≤ client_hourly_limit
    → count_within start (ts ++ now ∷ []) ≤ client_hourly_limit
admit_within start now ts few b = elim (Bool-cases (leb start now && ltb now (start + hour))) [
  | inr out ↦ rw (outside start now ts out) b
  | inl within ↦
      let below : now < start + hour = ground arith in
      let inner = within-live start now ts below in
      let grown = count_within-append start now ts in ground arith
]

admit-IsBounded :
    (history : List Call) (client : Text) (now : ℕ)
    → allows history client now ≡ true
    → IsBounded history
    → IsBounded (history ++ (client, now) ∷ [])
admit-IsBounded history client now h b other start =
    rw (times_of-append other client now history) (elim (Bool-cases (text_eq other client)) [
      | inr differ ↦ rw differ (b other start)
      | inl same ↦ rw same (
          subst (λ c. count_within start (times_of c history ++ now ∷ []) ≤ client_hourly_limit)
            (sym (text_eq→eq other client same))
            (admit_within start now (times_of client history) h (b client start)))
    ])

window_calls-IsBounded :
    (calls : List Call) (history : List Call)
    → IsBounded history
    → IsBounded (history ++ window_calls history calls)
unfolding window_calls
window_calls-IsBounded [] history b = subst IsBounded (sym (append-nil history)) b
window_calls-IsBounded ((client, now) ∷ calls) history b =
    elim (Bool-cases (allows history client now)) [
      | inl taken ↦
          rw (taken, window_calls)
            (subst IsBounded
              (append_assoc history ((client, now) ∷ [])
                (window_calls (history ++ (client, now) ∷ []) calls))
              (window_calls-IsBounded calls (history ++ (client, now) ∷ [])
                (admit-IsBounded history client now taken b)))
      | inr refused ↦ rw (refused, window_calls) (window_calls-IsBounded calls history b)
    ]

-- While the clock does not go back, the buckets admit at most twenty calls of a client within any
-- hour, wherever it starts.
pub quota_bounds :
    (calls : List Call) (client : Text) (start : ℕ)
    → AreTimed 0 calls
    → count_within start (times_of client (admitted_calls no_buckets calls)) ≤ client_hourly_limit
unfolding count_within times_of
quota_bounds calls client start timed =
    subst IsBounded (sym (quota_refines calls timed))
      (window_calls-IsBounded calls [] (λ other from. omega arith)) client start
