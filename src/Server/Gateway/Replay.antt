-- ===== src/Server/Gateway/Replay.antt =====
-- Chat-Server/core/RequestHandler.cpp and NonceCache.cpp together: a request is accepted once. The
-- timestamp and the cache are checked by two readings of the clock.

use xychat_project.Prelude.{
  ℕ, ◌+◌, ◌≤◌, ◌<◌, ◌≡◌, ◌≢◌, refl, ◌∙◌, ap, true, false, List, some, arith, inl, inr, ◌⊎◌,
  Bool-cases,
}
use xychat_project.Prelude.Int.{pos_part}
use xychat_project.Prelude.Json.{Fields, value, to_text, to_long_long}
use xychat_project.Protocol.Packet.{Packet}
use xychat_project.Server.NonceCache.{NonceCache, check_and_insert, Call, run}
use xychat_project.Server.NonceCache.Replay.{accepted_once, Calm}
use xychat_project.Server.Gateway.{
  Platform, Gateway, Readings, replay_rejected, check_replay_protection, process_packet, distance,
  replay_tolerance, process_object,
}

-- The code units of a request's nonce, and its timestamp.
abbrev pub nonce_of : Platform → Fields → List ℕ
nonce_of q request = q.trimmed (to_text (value request "nonce"))

abbrev pub timestamp_of : Platform → Fields → ℕ
timestamp_of q request = pos_part (to_long_long q.long_of_text (value request "timestamp"))

-- What acceptance says.
accepted_parts :
    (q : Platform) (c : NonceCache) (request : Fields) (r : Readings)
    → (check_replay_protection q (some c) request r).1 ≡ true
    → ((check_and_insert c (nonce_of q request) r.cached).1 ≡ true)
      × (distance r.received (timestamp_of q request) ≤ replay_tolerance)
unfolding check_replay_protection
accepted_parts q c request r h = ground arith

-- Refused by the clock, or by the cache.
refused :
    (q : Platform) (c : NonceCache) (request : Fields) (r : Readings)
    → (replay_tolerance < distance r.received (timestamp_of q request))
      ⊎ ((check_and_insert c (nonce_of q request) r.cached).1 ≡ false)
    → (check_replay_protection q (some c) request r).1 ≡ false
unfolding check_replay_protection
refused q c request r (inl h) = ground arith
refused q c request r (inr h) = ground arith

-- What lies between two checks of a request: the cache's second reading comes within its lifetime
-- of 600 seconds after the first and the calls in between are calm, or the second timestamp check
-- comes more than 600 seconds after the first.
abbrev pub IsCovered : NonceCache → Readings → Readings → List (ℕ × Call) → Type 0
IsCovered c r r' xs =
    ((r'.cached ≤ r.cached + 600) × Calm r.cached c xs) ⊎ (r.received + 600 < r'.received)

-- A request that was accepted is refused when it comes again, whatever calls of the cache come in
-- between: by the cache as long as it holds the nonce, or by the timestamp.
replayed_request :
    (q : Platform) (c : NonceCache) (request : Fields) (r r' : Readings) (xs : List (ℕ × Call))
    → c.ttl_seconds ≡ 600
    → (check_replay_protection q (some c) request r).1 ≡ true
    → IsCovered (check_and_insert c (nonce_of q request) r.cached).0 r r' xs
    → (check_replay_protection q
        (some (run (check_and_insert c (nonce_of q request) r.cached).0 xs))
        request
        r').1
      ≡ false
replayed_request q c request r r' xs ttl a (inl (le, calm)) =
    refused q (run (check_and_insert c (nonce_of q request) r.cached).0 xs) request r' (
      inr (
        accepted_once c (nonce_of q request) r.cached r'.cached xs
          (accepted_parts q c request r a).0 calm (ground (arith, ttl))))
replayed_request q c request r r' xs ttl a (inr late) =
    let near = (accepted_parts q c request r a).1 in
    refused q (run (check_and_insert c (nonce_of q request) r.cached).0 xs) request r'
      (inl (ground arith))

plain :
    (q : Platform) (s : Gateway) (p : Packet) (request : Fields) (r : Readings)
    → p.message_type ≢ 3
    → p.message_type ≢ 4
    → q.from_json p.payload ≡ some request
    → process_packet q s p r ≡ process_object q s p.message_type request r
unfolding process_packet
plain q s p request r m₃ m₄ json = ground (arith, m₃, m₄, json)

refused_object :
    (q : Platform) (s : Gateway) (c : NonceCache) (m : ℕ) (request : Fields) (r : Readings)
    → s.nonce_cache ≡ some c
    → (check_replay_protection q (some c) request r).1 ≡ false
    → (process_object q s m request r).1 ≡ replay_rejected
refused_object q s c m request r cache refuse = rw (cache, refuse) refl

-- A packet other than `Ping` and `Pong` whose payload is a JSON object and that was not refused by
-- the replay protection is answered with `replay_rejected` when it comes again later, on any
-- connection, with the server's lifetime of 600 seconds, in two cases: the cache's reading of the
-- clock is at most 600 seconds after the one of the first time, and the calls of the cache in
-- between meet the condition of `Calm`; or the reading for the timestamp is more than 600 seconds
-- after the one of the first time. The two readings are separate, and nothing is said of a packet
-- for which the cache's reading is already past the 600 seconds and the timestamp's is not.
pub process_packet_replay :
    (q : Platform) (s s' : Gateway) (c : NonceCache) (p : Packet) (request : Fields)
    (r r' : Readings) (xs : List (ℕ × Call))
    → c.ttl_seconds ≡ 600
    → s.nonce_cache ≡ some c
    → p.message_type ≢ 3
    → p.message_type ≢ 4
    → q.from_json p.payload ≡ some request
    → (process_packet q s p r).1 ≢ replay_rejected
    → IsCovered (check_and_insert c (nonce_of q request) r.cached).0 r r' xs
    → s'.nonce_cache ≡ some (run (check_and_insert c (nonce_of q request) r.cached).0 xs)
    → (process_packet q s' p r').1 ≡ replay_rejected
process_packet_replay q s s' c p request r r' xs ttl cache m₃ m₄ json ok covered later =
    elim (Bool-cases (check_replay_protection q (some c) request r).1) [
      | inl a ↦
          let again = replayed_request q c request r r' xs ttl a covered in
          ap (λ o. o.1) (plain q s' p request r' m₃ m₄ json)
          ∙ refused_object q s' (run (check_and_insert c (nonce_of q request) r.cached).0 xs)
              p.message_type request r' later again
      | inr bad ↦ absurd (
          ok (
            ap (λ o. o.1) (plain q s p request r m₃ m₄ json)
            ∙ refused_object q s c p.message_type request r cache bad))
    ]
