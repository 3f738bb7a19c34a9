-- ===== src/Examples/Gateway.antt =====
-- The checks before a handler, at concrete packets.
use xychat_project.Prelude.{ℕ, ◌≡◌, refl, List, [], ◌∷◌, none, some, arith, inl}
use xychat_project.Prelude.Int.{pos}
use xychat_project.Prelude.Json.{Fields, number, str, end, field, codes}
use xychat_project.Protocol.Packet.{Packet}
use xychat_project.Server.NonceCache.{
  NonceCache, check_and_insert, run, keep_since, lazy_purge, purge_expired, is_replay, make_room,
  record_nonce,
}
use xychat_project.Server.Gateway.{
  Platform, SessionInfo, Gateway, Readings, search_users, replay_rejected, check_replay_protection,
  process_packet, dispatch, validate_session, route,
}
use xychat_project.Server.Gateway.Replay.{process_packet_replay}
use xychat_project.Server.Gateway.Access.{IsAuthenticated, handler-IsAuthenticated}

abbrev request : List ℕ → Fields
request t = field "type" (str t) (
    field "timestamp" (number (pos 1000))
      (field "nonce" (str (b'n' ∷ [])) (field "token" (str (b't' ∷ [])) end)))

-- A payload is the value of `type` alone; a date is a number of seconds.
abbrev toy : Platform
toy = record {
  from_json = λ x. some (request x);
  trimmed = λ x. x;
  from_iso_date = λ d. elim d [ [] ↦ none | n ∷ ns ↦ some n ];
  hash_token = λ x. b'h' ∷ x;
  long_of_text = λ x. pos 0;
}

abbrev session : SessionInfo
session = record {
  id = pos 5;
  user_id = pos 7;
  device_id = [];
  token_hash = b'h' ∷ b't' ∷ [];
  last_active_at = 0;
  expires_at = 1050 ∷ [];
}

abbrev cache : NonceCache
cache = record { nonces = []; ttl_seconds = 600; max_entries = 100000 }

abbrev gateway : Gateway
gateway = record {
  nonce_cache = some cache;
  sessions = session ∷ [];
  current_session_id = pos 5;
  authenticated_user_id = pos 7;
}

abbrev packet : ℕ → List ℕ → Packet
packet m t = record { version = 1; message_type = m; request_id = 1; payload = t }

abbrev search : List ℕ
search = codes "search_users"

abbrev after : Gateway
after = record gateway { nonce_cache = some (run (check_and_insert cache (b'n' ∷ []) 1010).0 []) }

abbrev at : ℕ → Readings
at now = record { received = now; cached = now; checked = now; active = now }

process_packet_replay_example :
    (process_packet toy after (packet 20 search) (at 1011)).1 ≡ replay_rejected
unfolding process_packet dispatch validate_session route check_replay_protection check_and_insert
    lazy_purge purge_expired keep_since is_replay make_room record_nonce
process_packet_replay_example =
    process_packet_replay toy gateway after cache (packet 20 search) (request search) (at 1010)
      (at 1011) [] refl refl (λ e. omega arith) (λ e. omega arith) refl (λ e. cc)
      (inl (omega arith, tt)) refl

handler-IsAuthenticated_example : IsAuthenticated toy gateway (request search) 1010
unfolding process_packet dispatch validate_session route check_replay_protection check_and_insert
    lazy_purge purge_expired keep_since is_replay make_room record_nonce
handler-IsAuthenticated_example =
    handler-IsAuthenticated toy gateway (packet 20 search) (at 1010) search_users (request search)
      refl (λ e. cc) (λ e. cc)
