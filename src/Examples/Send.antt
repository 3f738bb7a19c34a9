-- ===== src/Examples/Send.antt =====
-- Sending a private message, at a concrete request.
use xychat_project.Prelude.{◌≡◌, refl, true, false, List, [], ◌∷◌, some, replicate, All}
use xychat_project.Prelude.Int.{pos}
use xychat_project.Prelude.Json.{Fields, number, str, array, object, cons, nil, end, field, codes}
use xychat_project.Crypto.Envelope.{EnvelopeEntry, decode_envelope, decode_entries}
use xychat_project.Server.RateWindow
use xychat_project.Server.RateWindow.{RateWindow}
use xychat_project.Server.Database.Messages.{send_message, get_message_by_client_key}
use xychat_project.Server.Database.Prekeys.{claimed, validate_claimed_prekey}
use xychat_project.Server.Send.Checks.{
  World, Server, Sender, check_entries, check_envelope, check_message_file, no_ids,
}
use xychat_project.Server.Send.Handler.{
  process_send_message_request, send_allowed, send_private, store,
  get_or_create_private_conversation,
}
use xychat_project.Server.Send.Recipients.{recipients, prekeys_of}
use xychat_project.Server.Send.Answers.{content_of}
use xychat_project.Server.Send.Spent.{IsSpent, sent_prekeys-IsSpent}

abbrev entry : Fields
entry = field "deviceId" (str (codes "pad")) (
    field "prekeyId" (number (pos 1)) (
      field "eph" (str (replicate 32 1))
        (field "iv" (str (replicate 12 2)) (field "ct" (str (replicate 20 3)) end))))

abbrev envelope : Fields
envelope = field "v" (number (pos 1)) (field "devices" (array (cons (object entry) nil)) end)

abbrev world : World
world = record {
  decoder = record { from_json = λ x. some envelope; from_base64 = λ x. x };
  trimmed = λ x. x;
  long_of_text = λ x. pos 0;
  inserts_conversation = true;
  looks_up = true;
  begins = true;
  statements = record { looks_up = true; inserts = true; looks_up_again = true };
  consumes = λ k. true;
  commits = true;
  appends = true;
  appends_own = false;
}

abbrev server : Server
server = record {
  messages = record { rows = []; next_id = 1; ready_files = []; conversations = [] };
  prekeys = record {
    rows =
        record {
          id = 1;
          user_id = 8;
          device_id = codes "pad";
          pub_key = 1 ∷ [];
          status = claimed;
          claimed_at = some 40;
        }
        ∷ [];
    next_id = 2;
  };
  conversations = [];
  next_conversation = 3;
  files = [];
  sync_events = [];
  send_window = record {
    max_count = 30;
    window_seconds = 10;
    window_start = 45;
    count = 2;
    initialized = true;
  };
}

abbrev me : Sender
me = record { user_id = 7; device_id = codes "phone"; has_storage = true }

abbrev request : Fields
request =
    field "clientMessageId" (str (codes "k1"))
      (field "toUserId" (number (pos 8)) (field "content" (str (codes "{}")) end))

sent_prekeys-IsSpent_example :
    (entries : List EnvelopeEntry) × (decode_envelope world.decoder (content_of request)
      ≡ some entries)
    × (no_ids (prekeys_of (recipients me entries)) ≡ false)
    × All
        (IsSpent (process_send_message_request world server me request 50).server.prekeys)
        (prekeys_of (recipients me entries))
unfolding process_send_message_request send_allowed send_private store
    get_or_create_private_conversation check_entries check_envelope check_message_file
    validate_claimed_prekey send_message get_message_by_client_key decode_envelope decode_entries
    RateWindow.allow RateWindow.roll
sent_prekeys-IsSpent_example =
    sent_prekeys-IsSpent world server me 50 1 3 request refl (λ k. refl) refl
