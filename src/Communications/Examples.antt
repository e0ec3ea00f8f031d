-- ===== src/Communications/Examples.antt =====
-- A small run on one draft, and each theorem at a concrete input.
use btx_omni_prospect.Prelude.{
  ℕ, String, true, false, none, some, List, [], ◌∷◌, ◌≡◌, ◌↔◌, refl, DateTime, strip, Option,
  string_eq,
}
use btx_omni_prospect.Prelude.Dict.{insert, lookup}
use btx_omni_prospect.Prelude.Result.{ok}
use btx_omni_prospect.Work.Domain.{Principal, salesperson, manager, approved}
use btx_omni_prospect.Communications.Drafts.{CommunicationDraft, is_sent, make_draft, make_event}
use btx_omni_prospect.Communications.Repository.{
  Repository, empty_repository, get, by_idempotency_key, history, insert_draft, update_draft,
  append_audit, written,
}
use btx_omni_prospect.Communications.Service.{
  Runtime, DeliveryPort, can_manage, check_version, blocked, on_draft, edited_draft, edit_plan,
  edit, decided_draft, decision_plan, decide, sent_draft, delivery_plan, send_plan, send,
}
use btx_omni_prospect.Communications.Creation.{
  CreateArgs, creation_fingerprint, original_fingerprint, creation_replay, request_key,
  creation_key, new_draft, creation_plan, store_new, earlier_draft, create,
}
use btx_omni_prospect.Communications.Commands.{Request, creates, decides, sends, handle, handle_all}
use btx_omni_prospect.Communications.Review.{IsValid}
use btx_omni_prospect.Communications.Delivery.{handle_all-IsValid, sent_final}
use btx_omni_prospect.Communications.Deliveries.{IsDelivered}
use btx_omni_prospect.Communications.Sending.{MaySend, delivery_event, send_delivers, send_iff}

abbrev runtime : Runtime
runtime = record {
  sha256_hexdigest = λ s. s;
  json_dumps = λ j. "key";
  json_dumps_plain = λ j. "content";
}

abbrev port : DeliveryPort
port = record {
  preview_available = λ d. true;
  preview_provider = λ d. "smtp";
  send_receipt = λ d key. some "r-1";
}

abbrev refusing_port : DeliveryPort
refusing_port = record port { send_receipt = λ d key. none }

abbrev at_minute : ℕ → DateTime
at_minute n = record { instant = n; aware = true }

abbrev author : Principal
author = record { user_id = "ann"; display_name = "Ann"; role = salesperson; tenant_id = none }

abbrev reviewer : Principal
reviewer = record { user_id = "max"; display_name = "Max"; role = manager; tenant_id = none }

abbrev letter : CreateArgs
letter = record {
  account_id = "acme";
  subject = "Hello";
  body = "We make parts.";
  recipients = "buyer@acme.test" ∷ [];
  principal = author;
  occurred_at = at_minute 1;
  trigger = none;
  evidence_ids = [];
  idempotency_key = some "k1";
  fresh_key = "f1";
  fresh_id = "d1";
}

drafts_program : Unit {0}
unfolding handle_all handle create store_new creation_plan new_draft creation_key request_key
    creation_replay original_fingerprint creation_fingerprint earlier_draft edit edit_plan
    edited_draft decide decision_plan decided_draft send send_plan delivery_plan sent_draft on_draft
    blocked check_version can_manage get by_idempotency_key history insert_draft update_draft
    append_audit make_draft make_event insert lookup strip
drafts_program = tt

abbrev review : List Request
review = creates letter ∷ decides "d1" approved reviewer (at_minute 2) (some 1) ∷ []

abbrev reviewed_letters : Repository
reviewed_letters = handle_all runtime review empty_repository

abbrev or_new : Option CommunicationDraft → CommunicationDraft
or_new none = new_draft runtime letter
or_new (some d) = d

abbrev approved_letter : CommunicationDraft
approved_letter = or_new (get "d1" reviewed_letters)

found_letter : get "d1" reviewed_letters ≡ some approved_letter
unfolding drafts_program
found_letter = refl

unsent_letter : is_sent approved_letter.status ≡ false
unfolding drafts_program
unsent_letter = refl

letter_may_go : MaySend port approved_letter author (at_minute 3) true "s1" (some 2) "r-1"
unfolding drafts_program
letter_may_go = record {
  human = refl;
  permitted = refl;
  fits = refl;
  approved = refl;
  recipient = refl;
  accepted = refl;
  aware = refl;
}

abbrev delivery : List Request
delivery =
    creates letter
    ∷ decides "d1" approved reviewer (at_minute 2) (some 1)
    ∷ sends refusing_port "d1" author (at_minute 3) true "s1" (some 2)
    ∷ sends port "d1" author (at_minute 3) true "s1" (some 2)
    ∷ []

handle_all-IsValid_example :
    IsValid (handle_all runtime delivery empty_repository)
    × IsDelivered (handle_all runtime delivery empty_repository)
handle_all-IsValid_example = handle_all-IsValid runtime delivery

send_delivers_example : send port "d1" author (at_minute 3) true "s1" (some 2) reviewed_letters ≡ (
  ok (sent_draft (at_minute 3) approved_letter),
  written
      (sent_draft (at_minute 3) approved_letter)
      (delivery_event port approved_letter author (at_minute 3) "s1" (some 2) "r-1")
      reviewed_letters,
)
send_delivers_example =
    send_delivers port reviewed_letters (handle_all-IsValid runtime review).0 "d1" approved_letter
      found_letter unsent_letter author (at_minute 3) true "s1" (some 2) "r-1" letter_may_go

send_iff_example :
    ((receipt : String) × MaySend port approved_letter author
        (at_minute 3)
        true
        "s1"
        (some 2)
        receipt)
    ↔ ((send port "d1" author (at_minute 3) true "s1" (some 2) reviewed_letters).0
        ≡ ok (sent_draft (at_minute 3) approved_letter))
send_iff_example =
    send_iff port reviewed_letters (handle_all-IsValid runtime review).0 "d1" approved_letter
      found_letter unsent_letter author (at_minute 3) true "s1" (some 2)

abbrev delivered_letters : Repository
delivered_letters = handle_all runtime delivery empty_repository

abbrev sent_letter : CommunicationDraft
sent_letter = or_new (get "d1" delivered_letters)

found_sent : lookup "d1" delivered_letters.drafts ≡ some sent_letter
unfolding drafts_program
found_sent = refl

letter_is_sent : is_sent sent_letter.status ≡ true
unfolding drafts_program
letter_is_sent = refl

sent_final_example :
    lookup "d1" (handle_all runtime review delivered_letters).drafts ≡ some sent_letter
sent_final_example =
    sent_final runtime review delivered_letters (handle_all-IsValid runtime delivery).0 "d1"
      sent_letter found_sent letter_is_sent
