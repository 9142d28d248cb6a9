-- ===== src/Session/Bind.antt =====
-- A call ends with a value or with an exception.
use vekro_backend.Base.{
  ℕ, ◌+◌, lookup, insert, Option, none, some, Bool, true, false, if◌then◌else◌, ◌≡◌, ◌⊎◌, inl, inr,
  refl, ◌∙◌, subst, sym, ap,
}
use vekro_backend.Model.Rows.{Transaction}
use vekro_backend.Session.Monad.{
  Error, Result, ok, err, Session, Action, ◌>>=◌, ◌>>◌, or_raise, require,
}

pub Result-cases :
    {A : Type 0} (result : Result A)
    → ((value : A) × (result ≡ ok value)) ⊎ ((error : Error) × (result ≡ err error))
Result-cases (ok value) = inl (value, refl)
Result-cases (err error) = inr (error, refl)

pub call-cases :
    {A : Type 0} (call : Result A × Session)
    → ((value : A) × (after : Session) × (call ≡ (ok value, after)))
      ⊎ ((error : Error) × (after : Session) × (call ≡ (err error, after)))
call-cases (ok value, after) = inl (value, after, refl)
call-cases (err error, after) = inr (error, after, refl)

-- What a failed call leaves: what was committed before; and after a wrong delivery code one more
-- counted attempt on the stored transaction, with what the request had read.
abbrev pub Failed : Session → Error → Session → Type 0
Failed s e s' =
    (s'.committed ≡ s.committed)
    ⊎ ((e ≡ Error.invalid_otp)
        × ((k at : ℕ) × (t : Transaction) × (lookup k s.work.transactions ≡ some t)
            × (s'.committed ≡ record (s.work) {
              transactions =
                  insert t.id
                    (record t { otp_failed_attempts = t.otp_failed_attempts + 1; updated_at = at })
                    s.work.transactions;
            })))

-- What a call from `s` ends with: `P` of the value and the session, or an exception as `Failed`
-- says.
abbrev pub Outcome : {A : Type 0} → Session → (A → Session → Type 0) → Result A × Session → Type 0
Outcome s P (ok a, s') = P a s'
Outcome s P (err e, s') = Failed s e s'

through :
    {A B : Type 0} (f : A → Action B) (s : Session) (r : Result A × Session)
    (P : A → Session → Type 0) (Q : B → Session → Type 0)
    → Outcome s P r
    → ((a : A) (s1 : Session) → P a s1 → Outcome s Q (f a s1))
    → Outcome s Q (((λ _. r) >>= f) s)
through f s (ok a, s1) P Q hm hf = hf a s1 hm
through f s (err e, s1) P Q hm hf = hm

-- What `m` ends with, and what `f` makes of it.
pub Outcome-bind :
    {A B : Type 0} (m : Action A) (f : A → Action B) (s : Session) (P : A → Session → Type 0)
    (Q : B → Session → Type 0)
    → Outcome s P (m s)
    → ((a : A) (s1 : Session) → P a s1 → Outcome s Q (f a s1))
    → Outcome s Q ((m >>= f) s)
Outcome-bind m f s P Q hm hf = through f s (m s) P Q hm hf

-- The same for a call that starts later than `s`.
pub Outcome-bind_later :
    {A B : Type 0} (m : Action A) (f : A → Action B) (s s1 : Session) (P : A → Session → Type 0)
    (Q : B → Session → Type 0)
    → Outcome s P (m s1)
    → ((a : A) (s2 : Session) → P a s2 → Outcome s Q (f a s2))
    → Outcome s Q ((m >>= f) s1)
Outcome-bind_later m f s s1 P Q hm hf = through f s (m s1) P Q hm hf

-- A call from `s` ends with `P` of the value and the session, or with an exception and nothing
-- committed.
abbrev pub Tentative : {A : Type 0} → Session → (A → Session → Type 0) → Result A × Session → Type 0
Tentative s P (ok a, s') = P a s'
Tentative s P (err e, s') = s'.committed ≡ s.committed

-- A tentative call from `s1`, after steps from `s` that committed nothing.
pub after :
    {A : Type 0} (s s1 : Session) (P Q : A → Session → Type 0) (r : Result A × Session)
    → s1.committed ≡ s.committed
    → Tentative s1 P r
    → ((a : A) (s' : Session) → P a s' → Q a s')
    → Outcome s Q r
after s s1 P Q (ok a, s') same h weaken = weaken a s' h
after s s1 P Q (err e, s') same h weaken = inl (h ∙ same)

read-through :
    {A B : Type 0} (f : A → Action B) (s : Session) (r : Result A × Session)
    (Q : B → Session → Type 0)
    → r.1 ≡ s
    → ((a : A) → r.0 ≡ ok a → Outcome s Q (f a s))
    → Outcome s Q (((λ _. r) >>= f) s)
read-through f s (ok a, s1) Q same hf = subst (λ x. Outcome s Q (f a x)) (sym same) (hf a refl)
read-through f s (err e, s1) Q same hf = inl (ap (λ x. x.committed) same)

-- A call that leaves the session as it is, and what `f` makes of its value.
pub read-then :
    {A B : Type 0} (m : Action A) (f : A → Action B) (s : Session) (Q : B → Session → Type 0)
    → (m s).1 ≡ s
    → ((a : A) → (m s).0 ≡ ok a → Outcome s Q (f a s))
    → Outcome s Q ((m >>= f) s)
read-then m f s Q same hf = read-through f s (m s) Q same hf

-- A value that has to be there, and what `f` makes of it.
pub raised-then :
    {A B : Type 0} (o : Option A) (e : Error) (f : A → Action B) (s : Session)
    (Q : B → Session → Type 0)
    → ((a : A) → o ≡ some a → Outcome s Q (f a s))
    → Outcome s Q ((or_raise o e >>= f) s)
raised-then none e f s Q h = inl refl
raised-then (some a) e f s Q h = h a refl

-- A test that has to hold.
pub required-then :
    {B : Type 0} (test : Bool) (e : Error) (k : Action B) (s : Session) (Q : B → Session → Type 0)
    → (test ≡ true → Outcome s Q (k s))
    → Outcome s Q ((require test e >> k) s)
required-then true e k s Q h = h refl
required-then false e k s Q h = inl refl

Tentative-through :
    {A B : Type 0} (f : A → Action B) (s : Session) (r : Result A × Session)
    (P : A → Session → Type 0) (Q : B → Session → Type 0)
    → Tentative s P r
    → ((a : A) (s1 : Session) → P a s1 → Tentative s Q (f a s1))
    → Tentative s Q (((λ _. r) >>= f) s)
Tentative-through f s (ok a, s1) P Q hm hf = hf a s1 hm
Tentative-through f s (err e, s1) P Q hm hf = hm

-- A tentative call from `s1`, after steps from `s` that committed nothing, and what `f` makes of
-- its value.
pub Tentative-bind :
    {A B : Type 0} (m : Action A) (f : A → Action B) (s s1 : Session) (P : A → Session → Type 0)
    (Q : B → Session → Type 0)
    → Tentative s P (m s1)
    → ((a : A) (s2 : Session) → P a s2 → Tentative s Q (f a s2))
    → Tentative s Q ((m >>= f) s1)
Tentative-bind m f s s1 P Q hm hf = Tentative-through f s (m s1) P Q hm hf

pub Tentative-later :
    {A : Type 0} (s s1 : Session) (P Q : A → Session → Type 0) (r : Result A × Session)
    → s1.committed ≡ s.committed
    → Tentative s1 P r
    → ((a : A) (s' : Session) → P a s' → Q a s')
    → Tentative s Q r
Tentative-later s s1 P Q (ok a, s') same h weaken = weaken a s' h
Tentative-later s s1 P Q (err e, s') same h weaken = h ∙ same

pub Tentative-required :
    {B : Type 0} (test : Bool) (e : Error) (k : Action B) (s s1 : Session)
    (Q : B → Session → Type 0)
    → s1.committed ≡ s.committed
    → (test ≡ true → Tentative s Q (k s1))
    → Tentative s Q ((require test e >> k) s1)
Tentative-required true e k s s1 Q same h = h refl
Tentative-required false e k s s1 Q same h = same

-- Two branches.
pub branch :
    {B : Type 0} (test : Bool) (m k : Action B) (s : Session) (Q : B → Session → Type 0)
    → (test ≡ true → Outcome s Q (m s))
    → (test ≡ false → Outcome s Q (k s))
    → Outcome s Q ((if test then m else k) s)
branch true m k s Q hm hk = hm refl
branch false m k s Q hm hk = hk refl

pub weakened :
    {A : Type 0} (s : Session) (P Q : A → Session → Type 0) (r : Result A × Session)
    → Outcome s P r
    → ((a : A) (s' : Session) → P a s' → Q a s')
    → Outcome s Q r
weakened s P Q (ok a, s') h weaken = weaken a s' h
weakened s P Q (err e, s') h weaken = h

value-through :
    {A B : Type 0} (r : Result A × Session) (f : A → Action B) (b : B)
    → (((λ _. r) >>= f) r.1).0 ≡ ok b
    → (a : A) × (s1 : Session) × ((f a s1).0 ≡ ok b)
value-through (ok a, s1) f b h = (a, s1, h)
value-through (err e, s1) f b h = absurd (failed e b h)
  where
    failed : {B : Type 0} (e : Error) (b : B) → err e ≡ ok b → ⊥
    failed e b h = cc

-- A value of two calls is a value of the second, wherever that starts.
pub value-then :
    {A B : Type 0} (m : Action A) (f : A → Action B) (s : Session) (b : B)
    → ((m >>= f) s).0 ≡ ok b
    → (a : A) × (s1 : Session) × ((f a s1).0 ≡ ok b)
value-then m f s b h = value-through (m s) f b h

-- What is known of the value besides.
pub with_value :
    {A : Type 0} (s : Session) (P : A → Session → Type 0) (R : A → Type 0) (r : Result A × Session)
    → Tentative s P r
    → ((a : A) → r.0 ≡ ok a → R a)
    → Tentative s (λ a s'. P a s' × R a) r
with_value s P R (ok a, s') h known = (h, known a refl)
with_value s P R (err e, s') h known = h

pub Tentative-Outcome :
    {A : Type 0} (s : Session) (P : A → Session → Type 0) (r : Result A × Session)
    → Tentative s P r
    → Outcome s P r
Tentative-Outcome s P (ok a, s') h = h
Tentative-Outcome s P (err e, s') h = inl h
