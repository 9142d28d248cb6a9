-- ===== src/Accounts/Window/Refine.antt =====
-- The buckets against a sliding window over everything that was admitted.
use vekro_backend.Base.{
  ℕ, ◌≤◌, ◌≡◌, refl, sym, ap, ◌∙◌, subst, arith, leb, ltb, Bool, true, false, Bool-cases, inl, inr,
  List, [], ◌∷◌, ◌++◌, length, Text, text_eq, text_eq_refl, text_eq→eq, text_eq_sym, if◌then◌else◌,
}
use vekro_backend.Accounts.Window.{
  Bucket, Buckets, no_buckets, put_bucket, expire, Verdict, admitted, wait_for, client_hourly_limit,
  hour, is_hour_old, check_client_quota,
}
use vekro_backend.Accounts.Window.Ordered.{
  count_live, AreBefore, AreOrdered, AreBefore-later, AreBefore-append, AreOrdered-append,
  IsClocked, length-expire, expire-append, expire-expire,
}

-- A call: the client and the time.
abbrev pub Call : Type 0
Call = Text × ℕ

abbrev is_admitted : Verdict → Bool
is_admitted admitted = true
is_admitted _ = false

-- The calls that the quota admits, in their order.
unfoldable pub admitted_calls : Buckets → List Call → List Call
unfolding check_client_quota
admitted_calls buckets [] = []
admitted_calls buckets ((client, now) ∷ calls) =
    let r = check_client_quota client now buckets in
    let rest = admitted_calls r.1 calls in if is_admitted r.0 then (client, now) ∷ rest else rest

-- The times of a client's calls.
unfoldable pub times_of : Text → List Call → List ℕ
times_of client [] = []
times_of client ((other, t) ∷ calls) =
    let rest = times_of client calls in if text_eq client other then t ∷ rest else rest

-- The window over the whole history of admitted calls: a call is admitted if fewer than the limit
-- of the client's calls are less than an hour old.
abbrev pub allows : List Call → Text → ℕ → Bool
allows history client now =
    ltb (count_live (is_hour_old now) (times_of client history)) client_hourly_limit

unfoldable pub window_calls : List Call → List Call → List Call
unfolding count_live times_of
window_calls history [] = []
window_calls history ((client, now) ∷ calls) = elim (allows history client now) [
  | true ↦ (client, now) ∷ window_calls (history ++ (client, now) ∷ []) calls
  | false ↦ window_calls history calls
]

-- The clock does not go back.
abbrev pub AreTimed : ℕ → List Call → Type 0
AreTimed last [] = Unit
AreTimed last ((_, now) ∷ calls) = (last ≤ now) × AreTimed now calls

hour_old-IsClocked : IsClocked is_hour_old
hour_old-IsClocked = record {
  stays = λ s t x h old. ground arith;
  older = λ t x y h old. ground arith;
}

pub times_of-append :
    (client other : Text) (now : ℕ) (history : List Call)
    → times_of client (history ++ (other, now) ∷ []) ≡ (
        if text_eq client other
        then times_of client history ++ now ∷ []
        else times_of client history)
unfolding times_of
times_of-append client other now [] = refl
times_of-append client other now ((c, t) ∷ history) = elim (Bool-cases (text_eq client c)) [
  | inl same ↦ rw (same, times_of) (ground (arith, times_of-append client other now history))
  | inr differ ↦ rw (differ, times_of) (times_of-append client other now history)
]

-- The buckets hold, of each client's history, what later calls can still see.
record Matches (buckets : Buckets) (history : List Call) (last : ℕ) : Type 0 where
  seen :
      (client : Text) (now : ℕ)
      → last ≤ now
      → expire (is_hour_old now) (buckets client)
        ≡ expire (is_hour_old now) (times_of client history)
  past : (client : Text) → AreBefore last (times_of client history)
  ordered : (client : Text) → AreOrdered (times_of client history)

refused_wait : (window now : ℕ) (bucket : Bucket) → is_admitted (wait_for window now bucket) ≡ false
refused_wait window now [] = refl
refused_wait window now (t ∷ ts) = refl

found_length :
    (client : Text) (buckets : Buckets) (history : List Call) (last now : ℕ)
    → Matches buckets history last
    → last ≤ now
    → length (expire (is_hour_old now) (buckets client))
      ≡ count_live (is_hour_old now) (times_of client history)
found_length client buckets history last now m h =
    ap length (m.seen client now h)
    ∙ length-expire is_hour_old hour_old-IsClocked now (times_of client history) (m.ordered client)

cleared-Matches :
    (client : Text) (buckets : Buckets) (history : List Call) (last now : ℕ)
    → Matches buckets history last
    → last ≤ now
    → Matches (put_bucket client (expire (is_hour_old now) (buckets client)) buckets) history now
unfolding put_bucket
cleared-Matches client buckets history last now m h = record {
  seen = λ other later le. elim (Bool-cases (text_eq client other)) [
    | inl same ↦
        rw (same, put_bucket)
          (subst
            (λ c.
              expire (is_hour_old later) (expire (is_hour_old now) (buckets client))
              ≡ expire (is_hour_old later) (times_of c history))
            (text_eq→eq client other same)
            (ap (expire (is_hour_old later)) (m.seen client now h)
              ∙ expire-expire is_hour_old hour_old-IsClocked now later (times_of client history)
                  le))
    | inr differ ↦ rw (differ, put_bucket) (m.seen other later (omega arith))
  ];
  past = λ other. AreBefore-later last now (times_of other history) h (m.past other);
  ordered = m.ordered;
}

admitted-Matches :
    (client : Text) (buckets : Buckets) (history : List Call) (last now : ℕ)
    → Matches buckets history last
    → last ≤ now
    → Matches
        (put_bucket client (expire (is_hour_old now) (buckets client) ++ now ∷ []) buckets)
        (history ++ (client, now) ∷ [])
        now
unfolding put_bucket
admitted-Matches client buckets history last now m h = record {
  seen = λ other later le. elim (Bool-cases (text_eq other client)) [
    | inl same ↦
        rw (times_of-append other client now history, same)
          (subst
            (λ c.
              expire (is_hour_old later) (
                put_bucket client (expire (is_hour_old now) (buckets client) ++ now ∷ []) buckets c)
              ≡ expire (is_hour_old later) (times_of c history ++ now ∷ []))
            (sym (text_eq→eq other client same))
            (rw (text_eq_refl client, put_bucket)
              (ap (λ z. expire (is_hour_old later) (z ++ now ∷ [])) (m.seen client now h)
                ∙ expire-append is_hour_old hour_old-IsClocked now later (times_of client history)
                    (now ∷ []) le)))
    | inr differ ↦
        rw (times_of-append other client now history, differ)
          (rw (text_eq_sym client other differ, put_bucket) (m.seen other later (omega arith)))
  ];
  past = λ other.
      rw (times_of-append other client now history) (elim (Bool-cases (text_eq other client)) [
        | inl same ↦ rw same (
            AreBefore-append now (times_of other history)
              (AreBefore-later last now (times_of other history) h (m.past other)))
        | inr differ ↦
            rw differ (AreBefore-later last now (times_of other history) h (m.past other))
      ]);
  ordered = λ other.
      rw (times_of-append other client now history) (elim (Bool-cases (text_eq other client)) [
        | inl same ↦ rw same (
            AreOrdered-append now (times_of other history)
              (AreBefore-later last now (times_of other history) h (m.past other))
              (m.ordered other))
        | inr differ ↦ rw differ (m.ordered other)
      ]);
}

fresh-Matches : Matches no_buckets [] 0
unfolding times_of
fresh-Matches = record { seen = λ client now h. refl; past = λ client. tt; ordered = λ client. tt }

admitted_calls-matched :
    (calls : List Call) (buckets : Buckets) (history : List Call) (last : ℕ)
    → Matches buckets history last
    → AreTimed last calls
    → admitted_calls buckets calls ≡ window_calls history calls
unfolding admitted_calls window_calls check_client_quota
admitted_calls-matched [] buckets history last m timed = refl
admitted_calls-matched ((client, now) ∷ calls) buckets history last m (h, timed) =
    let live = expire (is_hour_old now) (buckets client) in
    let count = count_live (is_hour_old now) (times_of client history) in
    let same : length live ≡ count = found_length client buckets history last now m h in
    elim (Bool-cases (leb client_hourly_limit (length live))) [
      | inl full ↦
          let refused : allows history client now ≡ false = ground (arith, same) in
          rw (full, refused, admitted_calls, window_calls)
            (rw (refused_wait hour now live) (
              admitted_calls-matched calls (put_bucket client live buckets) history now
                (cleared-Matches client buckets history last now m h) timed))
      | inr room ↦
          let taken : allows history client now ≡ true = ground (arith, same) in
          rw (room, taken, admitted_calls, window_calls)
            (ap (λ rest. (client, now) ∷ rest)
              (admitted_calls-matched calls (put_bucket client (live ++ now ∷ []) buckets)
                (history ++ (client, now) ∷ []) now
                (admitted-Matches client buckets history last now m h) timed))
    ]

-- While the clock does not go back, the buckets admit exactly the calls that a window over the whole
-- history of admitted calls admits: those of a client with fewer than twenty admitted calls that are
-- less than an hour old.
pub quota_refines :
    (calls : List Call) → AreTimed 0 calls → admitted_calls no_buckets calls ≡ window_calls [] calls
quota_refines calls timed = admitted_calls-matched calls no_buckets [] 0 fresh-Matches timed
