-- ===== src/Rails/Webhook/Funding.antt =====
-- What callbacks record: each payment is funded once, on proof.
use vekro_backend.Base.{
  ℕ, suc, ◌≤◌, ◌≡◌, ◌∙◌, subst, Bool-cases, inl, inr, Option, none, some, List, [], ◌∷◌, Text,
  text_eq, text_eq→eq, if◌then◌else◌,
}
use vekro_backend.Rails.Webhook.Signature.{LoopEnv, valid}
use vekro_backend.Rails.Webhook.Process.{
  CollectionOutcome, inquiry_confirmed, ProviderEvent, FundingAudit, LoopDb, Callback, event_with,
  process_loop_collection_webhook,
}
use vekro_backend.Rails.Webhook.Repeated.{other_event}

unfoldable pub count_audits : Text → List FundingAudit → ℕ
count_audits key [] = 0
count_audits key (a ∷ as_before) =
    let rest = count_audits key as_before in if text_eq a.dedupe_key key then suc rest else rest

-- A funding rests on a stored callback with a valid signature, whose inquiry answered that the
-- payment succeeded.
abbrev pub IsBacked : FundingAudit → List ProviderEvent → Type 0
IsBacked a events =
    (e : ProviderEvent) × (event_with a.dedupe_key events ≡ some e)
    × (e.signature_status ≡ valid)
    × (e.response ≡ inquiry_confirmed CollectionOutcome.succeeded)
    × (e.provider_reference ≡ some a.provider_reference)

abbrev pub AreBacked : List FundingAudit → List ProviderEvent → Type 0
AreBacked [] events = Unit
AreBacked (a ∷ rest) events = IsBacked a events × AreBacked rest events

pub record IsFunded (db : LoopDb) : Type 0 where
  pub backed : AreBacked db.audits db.events
  pub once : (key : Text) → count_audits key db.audits ≤ 1

-- A callback with the time, the settings and the inquiries at which it comes
pub record Delivery : Type 0 where
  pub env : LoopEnv
  pub inquiry_status_fn : Text → Option CollectionOutcome
  pub callback : Callback

unfoldable pub deliver : Delivery → LoopDb → LoopDb
unfolding process_loop_collection_webhook
deliver d db = (process_loop_collection_webhook d.env d.inquiry_status_fn d.callback db).1

unfoldable pub deliver_all : List Delivery → LoopDb → LoopDb
unfolding deliver
deliver_all [] db = db
deliver_all (d ∷ ds) db = deliver_all ds (deliver d db)

-- A row under a new key covers no older one.
pub still_found :
    (row : ProviderEvent) (events : List ProviderEvent) (key : Text) (e : ProviderEvent)
    → event_with row.dedupe_key events ≡ none
    → event_with key events ≡ some e
    → event_with key (row ∷ events) ≡ some e
still_found row events key e new found = elim (Bool-cases (text_eq row.dedupe_key key)) [
  | inr differ ↦ other_event row events key differ ∙ found
  | inl same ↦
      let clash : event_with key events ≡ none =
        subst (λ k. event_with k events ≡ none) (text_eq→eq row.dedupe_key key same) new in
      cc
]
