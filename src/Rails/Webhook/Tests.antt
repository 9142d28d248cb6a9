-- ===== src/Rails/Webhook/Tests.antt =====
-- A genuine, a forged and a repeated callback.
use vekro_backend.Base.{◌≡◌, refl, true, false, Option, some, List, [], ◌∷◌, Text, codes}
use vekro_backend.Rails.Webhook.Payload.{string, dict, Entries, no_entries, entry}
use vekro_backend.Rails.Webhook.Signature.{
  LoopEnv, valid, is_valid_signature, verify_callback_signature,
}
use vekro_backend.Rails.Webhook.Process.{
  CollectionOutcome, inquiry_confirmed, ProviderEvent, LoopDb, Callback, event_with, event_of,
  process_loop_collection_webhook,
}
use vekro_backend.Rails.Webhook.Repeated.{IsRepeated, callback-IsRepeated}
use vekro_backend.Rails.Webhook.Forged.{AreAlike, forged_harmless}
use vekro_backend.Rails.Webhook.Funding.{count_audits, Delivery, deliver, deliver_all}
use vekro_backend.Rails.Webhook.First.{first_callback_decides}

abbrev digest : Text → Text
digest [] = codes "z"
digest (c ∷ cs) = c ∷ codes "z"

abbrev env : LoopEnv
env = record {
  now = 1000;
  signing_secret = codes "secret";
  max_timestamp_skew_seconds = 300;
  repr = λ v. codes "{}";
  hmac = λ key message. digest message;
  sha256 = digest;
  parse_timestamp = λ t. some 900;
}

abbrev paid_payload : Entries
paid_payload =
    entry (codes "data") (dict (entry (codes "txnRef") (string (codes " ref7 ")) no_entries))
      (entry (codes "MSISDN") (string (codes "+254700000001")) no_entries)

abbrev paid : Callback
paid = record {
  payload = paid_payload;
  raw_payload = codes "{}";
  headers =
      (codes "X-Loop-Timestamp", codes "2026")
      ∷ (codes "X-Loop-Nonce", codes "n1")
      ∷ (codes "X-Loop-Signature", codes "2z")
      ∷ [];
}

abbrev forged : Callback
forged = record paid { headers = [] }

abbrev confirmed : Text → Option CollectionOutcome
confirmed reference = some CollectionOutcome.succeeded

abbrev undecided : Text → Option CollectionOutcome
undecided reference = some CollectionOutcome.unknown

abbrev no_rows : LoopDb
no_rows = record { events = []; audits = [] }

abbrev delivered : (Text → Option CollectionOutcome) → Callback → Delivery
delivered inquiry_status_fn c = record {
  env = env;
  inquiry_status_fn = inquiry_status_fn;
  callback = c;
}

abbrev test_deliveries : List Delivery
test_deliveries =
    delivered confirmed forged ∷ delivered confirmed paid ∷ delivered confirmed paid ∷ []

funds_once : count_audits (codes "collection:ref7") (deliver_all test_deliveries no_rows).audits ≡ 1
unfolding deliver_all count_audits
funds_once = refl

good_signature :
    is_valid_signature (verify_callback_signature env paid.headers paid.raw_payload) ≡ true
unfolding verify_callback_signature
good_signature = refl

bad_signature :
    is_valid_signature (verify_callback_signature env forged.headers forged.raw_payload) ≡ false
unfolding verify_callback_signature
bad_signature = refl

abbrev later_env : LoopEnv
later_env = record env { now = 1100; max_timestamp_skew_seconds = 240 }

callback-IsRepeated_example :
    IsRepeated
      (process_loop_collection_webhook later_env undecided paid
        (process_loop_collection_webhook env confirmed paid no_rows).1)
      (process_loop_collection_webhook env confirmed paid no_rows).1
unfolding verify_callback_signature
callback-IsRepeated_example =
    callback-IsRepeated env later_env confirmed undecided paid no_rows refl refl refl

forged_harmless_example :
    AreAlike
      (process_loop_collection_webhook env confirmed paid
        (process_loop_collection_webhook env confirmed forged no_rows).1)
      (process_loop_collection_webhook env confirmed paid no_rows)
forged_harmless_example =
    forged_harmless env env confirmed confirmed forged paid no_rows bad_signature good_signature

abbrev undecided_rows : LoopDb
undecided_rows = deliver (delivered undecided paid) no_rows

abbrev undecided_event : ProviderEvent
undecided_event =
    event_of env paid valid (codes "collection:ref7") (inquiry_confirmed CollectionOutcome.unknown)

undecided_found : event_with (codes "collection:ref7") undecided_rows.events ≡ some undecided_event
unfolding deliver
undecided_found = refl

first_callback_decides_example :
    (event_with (codes "collection:ref7") (deliver_all test_deliveries undecided_rows).events
      ≡ some undecided_event)
    × (count_audits (codes "collection:ref7") (deliver_all test_deliveries undecided_rows).audits
        ≡ count_audits (codes "collection:ref7") undecided_rows.audits)
first_callback_decides_example =
    first_callback_decides test_deliveries undecided_rows (codes "collection:ref7") undecided_event
      undecided_found
