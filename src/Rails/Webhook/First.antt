-- ===== src/Rails/Webhook/First.antt =====
-- A callback that came first decides for its key.
use vekro_backend.Base.{
  ℕ, ◌≡◌, refl, sym, subst, false, Bool-cases, Option-cases, inl, inr, Option, none, some, List, [],
  ◌∷◌, Text, text_eq, text_eq→eq,
}
use vekro_backend.Rails.Webhook.Signature.{
  LoopEnv, SignatureStatus, valid, is_valid_signature, verify_callback_signature,
}
use vekro_backend.Rails.Webhook.Process.{
  CollectionOutcome, rejected_invalid_signature, ignored_missing_provider_reference, inquiry_failed,
  inquiry_confirmed, ProviderEvent, LoopDb, Callback, callback_reference, callback_key,
  rejected_key, event_with, event_of, add_event, audit_funding, reject_unauthenticated_callback,
  confirm_by_inquiry, accept_callback, process_loop_collection_webhook,
}
use vekro_backend.Rails.Webhook.Repeated.{accept-new, accept-known, reject-new, reject-known}
use vekro_backend.Rails.Webhook.Funding.{count_audits, Delivery, deliver, deliver_all, still_found}

module _ (key : Text) (e : ProviderEvent) (n : ℕ) where
  -- The row of the key, and the number of its fundings
  abbrev HoldsKey : LoopDb → Type 0
  HoldsKey db = (event_with key db.events ≡ some e) × (count_audits key db.audits ≡ n)

  add-HoldsKey :
      (row : ProviderEvent) (db : LoopDb)
      → event_with row.dedupe_key db.events ≡ none
      → HoldsKey db
      → HoldsKey (add_event row db)
  add-HoldsKey row db new (found, count) = (still_found row db.events key e new found, count)

  other_key :
      (new_key : Text) (events : List ProviderEvent)
      → event_with new_key events ≡ none
      → event_with key events ≡ some e
      → text_eq new_key key ≡ false
  other_key new_key events new found = elim (Bool-cases (text_eq new_key key)) [
    | inr differ ↦ differ
    | inl same ↦
        let clash : event_with key events ≡ none =
          subst (λ k. event_with k events ≡ none) (text_eq→eq new_key key same) new in
        cc
  ]

  audit-HoldsKey :
      (env : LoopEnv) (reference new_key : Text) (outcome : CollectionOutcome) (db : LoopDb)
      → text_eq new_key key ≡ false
      → HoldsKey db
      → HoldsKey (audit_funding env reference new_key outcome db)
  unfolding count_audits
  audit-HoldsKey env reference new_key CollectionOutcome.succeeded db differ (found, count) =
      (found, rw (differ, count_audits) count)
  audit-HoldsKey env reference new_key CollectionOutcome.failed_definite db differ h = h
  audit-HoldsKey env reference new_key CollectionOutcome.unknown db differ h = h

  confirm-HoldsKey :
      (env : LoopEnv) (inquiry_status_fn : Text → Option CollectionOutcome) (c : Callback)
      (reference : Option Text) (new_key : Text) (db : LoopDb)
      → event_with new_key db.events ≡ none
      → HoldsKey db
      → HoldsKey (confirm_by_inquiry env inquiry_status_fn c reference new_key db).1
  unfolding confirm_by_inquiry event_of
  confirm-HoldsKey env inquiry_status_fn c none new_key db new h =
      add-HoldsKey (event_of env c valid new_key ignored_missing_provider_reference) db new h
  confirm-HoldsKey env inquiry_status_fn c (some reference) new_key db new h =
      elim (Option-cases (inquiry_status_fn reference)) [
        | inl failed ↦
            rw (failed, confirm_by_inquiry)
              (add-HoldsKey (event_of env c valid new_key inquiry_failed) db new h)
        | inr (outcome, answered) ↦
            let row = event_of env c valid new_key (inquiry_confirmed outcome) in
            rw (answered, confirm_by_inquiry)
              (audit-HoldsKey env reference new_key outcome (add_event row db)
                (other_key new_key db.events new h.0) (add-HoldsKey row db new h))
      ]

  accept-HoldsKey :
      (env : LoopEnv) (inquiry_status_fn : Text → Option CollectionOutcome) (c : Callback)
      (db : LoopDb)
      → HoldsKey db
      → HoldsKey (accept_callback env inquiry_status_fn c db).1
  accept-HoldsKey env inquiry_status_fn c db h =
      elim (Option-cases (event_with (callback_key env c) db.events)) [
        | inr (row, found) ↦
            subst (λ r. HoldsKey r.1) (sym (accept-known env inquiry_status_fn c db row found)) h
        | inl new ↦
            subst (λ r. HoldsKey r.1) (sym (accept-new env inquiry_status_fn c db new))
              (confirm-HoldsKey env inquiry_status_fn c (callback_reference env c)
                (callback_key env c) db new h)
      ]

  reject-HoldsKey :
      (env : LoopEnv) (c : Callback) (reason : SignatureStatus) (db : LoopDb)
      → HoldsKey db
      → HoldsKey (reject_unauthenticated_callback env c reason db).1
  unfolding event_of
  reject-HoldsKey env c reason db h =
      let own = rejected_key env c in
      elim (Option-cases (event_with own db.events)) [
        | inr (row, found) ↦ subst HoldsKey (sym (reject-known env c reason db row found)) h
        | inl new ↦
            subst HoldsKey (sym (reject-new env c reason db new))
              (add-HoldsKey (event_of env c reason own rejected_invalid_signature) db new h)
      ]

  deliver-HoldsKey : (d : Delivery) (db : LoopDb) → HoldsKey db → HoldsKey (deliver d db)
  unfolding deliver process_loop_collection_webhook
  deliver-HoldsKey d db h =
      let c = d.callback in
      let status = verify_callback_signature d.env c.headers c.raw_payload in
      elim (Bool-cases (is_valid_signature status)) [
        | inl fine ↦
            rw (fine, deliver, process_loop_collection_webhook)
              (accept-HoldsKey d.env d.inquiry_status_fn c db h)
        | inr forged ↦
            rw (forged, deliver, process_loop_collection_webhook)
              (reject-HoldsKey d.env c status db h)
      ]

  all-HoldsKey : (ds : List Delivery) (db : LoopDb) → HoldsKey db → HoldsKey (deliver_all ds db)
  unfolding deliver_all
  all-HoldsKey [] db h = h
  all-HoldsKey (d ∷ ds) db h = all-HoldsKey ds (deliver d db) (deliver-HoldsKey d db h)

-- Once a callback is stored under a key, whatever came of its inquiry, no sequence of callbacks
-- changes the row, or confirms a funding under that key.
pub first_callback_decides :
    (ds : List Delivery) (db : LoopDb) (key : Text) (e : ProviderEvent)
    → event_with key db.events ≡ some e
    → (event_with key (deliver_all ds db).events ≡ some e)
      × (count_audits key (deliver_all ds db).audits ≡ count_audits key db.audits)
first_callback_decides ds db key e found =
    all-HoldsKey key e (count_audits key db.audits) ds db (found, refl)
