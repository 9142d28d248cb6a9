-- ===== src/Lifecycle/Effects/Quiet.antt =====
-- Requests that change no transaction: the confirmations that a resolved case is closed
-- (app/services/transaction.py). What any successful request does, whatever it returns.
use vekro_backend.Base.{ℕ, ◌≡◌, ◌⊎◌, inl, inr, refl}
use vekro_backend.Model.Status.{is_seller, is_buyer}
use vekro_backend.Model.Rows.{Transaction, User}
use vekro_backend.Session.{
  Env, Error, Session, Action, Outcome, Outcome-bind, raised-then, latest_dispute, pure, ◌>>◌,
}
use vekro_backend.Lifecycle.History.{logged_status}
use vekro_backend.Lifecycle.Transitions.{owned_by_seller, owned_by_buyer}
use vekro_backend.Lifecycle.Closure.{
  is_resolved, buyer_closes_case, buyer_closes, submit_buyer_resolution_confirmation,
  seller_closes_case, seller_closes, submit_seller_resolution_confirmation,
}
use vekro_backend.Lifecycle.Moves.{Act}
use vekro_backend.Lifecycle.Effects.{Changed, guard-then}

-- All was committed, with the transactions and the statuses in the anchor log as they were.
abbrev pub Quiet : Session → Session → Type 0
Quiet s s' =
    (s'.committed ≡ s'.work)
    × (s'.work.transactions ≡ s.work.transactions)
    × ((j : ℕ) → logged_status j s'.work.anchor_events ≡ logged_status j s.work.anchor_events)

-- A request that succeeds changes one transaction, changes none, or committed nothing.
abbrev pub Accepted : Act → Env → Session → Session → Type 0
Accepted act env s s' =
    ((id : ℕ) × (t' : Transaction) × Changed act env id s t' s')
    ⊎ (Quiet s s' ⊎ (s'.committed ≡ s.committed))

pub Changed-Accepted :
    (act : Act) (env : Env) (id : ℕ) (m : Action Transaction) (s : Session)
    → Outcome s (Changed act env id s) (m s)
    → Outcome s (λ _ s'. Accepted act env s s') ((m >> pure tt) s)
Changed-Accepted act env id m s h =
    Outcome-bind m (λ _. pure tt) s (Changed act env id s) (λ _ s'. Accepted act env s s') h
      (λ t' s' c. inl (id, t', c))

pub some_Changed-Accepted :
    (act : Act) (env : Env) (m : Action Transaction) (s : Session)
    → Outcome s (λ t' s'. (id : ℕ) × Changed act env id s t' s') (m s)
    → Outcome s (λ _ s'. Accepted act env s s') ((m >> pure tt) s)
some_Changed-Accepted act env m s h =
    Outcome-bind m (λ _. pure tt) s (λ t' s'. (id : ℕ) × Changed act env id s t' s')
      (λ _ s'. Accepted act env s s') h (λ t' s' c. inl (c.0, t', c.1))

pub then_done :
    {A : Type 0} (act : Act) (env : Env) (m : Action A) (s : Session)
    → Outcome s (λ _ s'. Accepted act env s s') (m s)
    → Outcome s (λ _ s'. Accepted act env s s') ((m >> pure tt) s)
then_done act env m s h =
    Outcome-bind m (λ _. pure tt) s (λ _ s'. Accepted act env s s') (λ _ s'. Accepted act env s s')
      h (λ _ s' a. a)

pub Quiet-Accepted :
    {A : Type 0} (act : Act) (env : Env) (m : Action A) (s : Session)
    → Outcome s (λ _ s'. Quiet s s') (m s)
    → Outcome s (λ _ s'. Accepted act env s s') ((m >> pure tt) s)
Quiet-Accepted act env m s h =
    Outcome-bind m (λ _. pure tt) s (λ _ s'. Quiet s s') (λ _ s'. Accepted act env s s') h
      (λ a s' q. inr (inl q))

pub buyer_closes-Quiet :
    (env : Env) (id : ℕ) (buyer : User) (s : Session)
    → Outcome s (λ _ s'. Quiet s s') (submit_buyer_resolution_confirmation env id buyer s)
unfolding submit_buyer_resolution_confirmation buyer_closes buyer_closes_case
buyer_closes-Quiet env id buyer s =
    guard-then (is_buyer buyer.role) id _ (owned_by_buyer buyer) _ is_resolved _
      (buyer_closes env buyer) s (λ _ s'. Quiet s s')
      (λ t found _ i.
        raised-then (latest_dispute t.id s.work) Error.transaction_validation_error
          (buyer_closes_case env buyer t) s (λ _ s'. Quiet s s') (λ d _. (refl, refl, λ j. refl)))

pub seller_closes-Quiet :
    (env : Env) (id : ℕ) (seller : User) (s : Session)
    → Outcome s (λ _ s'. Quiet s s') (submit_seller_resolution_confirmation env id seller s)
unfolding submit_seller_resolution_confirmation seller_closes seller_closes_case
seller_closes-Quiet env id seller s =
    guard-then (is_seller seller.role) id _ (owned_by_seller seller) _ is_resolved _
      (seller_closes env seller) s (λ _ s'. Quiet s s')
      (λ t found _ i.
        raised-then (latest_dispute t.id s.work) Error.transaction_validation_error
          (seller_closes_case env seller t) s (λ _ s'. Quiet s s') (λ d _. (refl, refl, λ j. refl)))
