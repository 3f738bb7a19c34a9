-- ===== src/Server/Gateway/Access.antt =====
-- Chat-Server/core/RequestHandler.cpp: what must hold before a handler runs.
use xychat_project.Prelude.{
  some_inj, ℕ, ◌≤◌, ◌<◌, ◌≡◌, ◌≢◌, sym, ◌∙◌, ap, true, List, ◌==◌, Option, none, some, arith, inl,
  inr, ◌⊎◌, Bool-cases, Option-cases,
}
use xychat_project.Prelude.Int.{eq_int_iff}
use xychat_project.Prelude.Assoc.{text_beq_iff}
use xychat_project.Prelude.Json.{Fields, value, to_text, codes}
use xychat_project.Protocol.Packet.{Packet}
use xychat_project.Server.NonceCache.{NonceCache}
use xychat_project.Server.Gateway.{
  Platform, Gateway, SessionInfo, Handler, register, login, logout, token_renew, handle,
  check_replay_protection, process_packet, dispatch, validate_session, get_session_by_id, route,
  open_routes, session_routes, chosen, Readings,
}

-- What a request must show: a session of the connection's user that is in the table, a token with
-- its hash, and an expiry that is valid and not past, or the type `token_renew`.
pub record IsAuthenticated (q : Platform) (s : Gateway) (request : Fields) (now : ℕ) : Type 0 where
  pub session : SessionInfo
  pub stored : get_session_by_id s.current_session_id s.sessions ≡ some session
  pub own : session.user_id ≡ s.authenticated_user_id
  pub token : q.hash_token (to_text (value request "token")) ≡ session.token_hash
  pub expiry : ℕ
  pub expires : q.from_iso_date session.expires_at ≡ some expiry
  pub current : (now ≤ expiry) ⊎ (to_text (value request "type") ≡ codes "token_renew")

pub validate_session-IsAuthenticated :
    (q : Platform) (s : Gateway) (request : Fields) (now : ℕ)
    → validate_session q s request now ≡ true
    → IsAuthenticated q s request now
unfolding validate_session
validate_session-IsAuthenticated q s request now h =
    elim (Option-cases (get_session_by_id s.current_session_id s.sessions)) [
      | inl e ↦ ground (arith, e)
      | inr (x, e) ↦ elim (Option-cases (q.from_iso_date x.expires_at)) [
        | inl f ↦ ground (arith, e, f)
        | inr (expiry, f) ↦ record {
          session = x;
          stored = e;
          own = ground (arith, e, f, eq_int_iff x.user_id s.authenticated_user_id);
          token = ground (
            arith,
            e,
            f,
            text_beq_iff (q.hash_token (to_text (value request "token"))) x.token_hash,
          );
          expiry = expiry;
          expires = f;
          current =
              ground
                (arith, e, f, text_beq_iff (to_text (value request "type")) (codes "token_renew"));
        }
      ]
    ]

open_handlers :
    (m : ℕ) (t : List ℕ) (h : Handler)
    → route open_routes m t ≡ some h
    → (h ≡ register) ⊎ (h ≡ login)
unfolding route
open_handlers m t h e = ground (arith, e)

handled :
    (rq request : Fields) (o : Option Handler) (h : Handler)
    → chosen rq o ≡ handle h request
    → (rq ≡ request) × (o ≡ some h)
handled rq request none h e = ground (arith, e)
handled rq request (some k) h e = ground (arith, e)

dispatch_authenticated :
    (q : Platform) (s : Gateway) (m : ℕ) (rq : Fields) (r : Readings) (h : Handler)
    (request : Fields)
    → (dispatch q s m rq r).1 ≡ handle h request
    → h ≢ register
    → h ≢ login
    → (rq ≡ request)
      × (validate_session q s rq r.checked ≡ true)
      × (route session_routes m (to_text (value rq "type")) ≡ some h)
unfolding dispatch
dispatch_authenticated q s m rq r h request e nr nl =
    elim (Option-cases (route open_routes m (to_text (value rq "type")))) [
      | inl f ↦ elim (Bool-cases (validate_session q s rq r.checked)) [
        | inl v ↦
            let (same, found) =
              handled rq request (route session_routes m (to_text (value rq "type"))) h
                (ground (arith, f, v, e)) in
            (same, v, found)
        | inr v ↦ ground (arith, f, v, e)
      ]
      | inr (k, f) ↦ ground (arith, f, e, nr, nl, open_handlers m (to_text (value rq "type")) k f)
    ]

-- The dispatch works on the same sessions and connection.
through_dispatch :
    (q : Platform) (s : Gateway) (p : Packet) (r : Readings) (h : Handler) (request : Fields)
    → (process_packet q s p r).1 ≡ handle h request
    → (rq : Fields) × (c : Option NonceCache) × ((dispatch q
          (record s { nonce_cache = c })
          p.message_type
          rq
          r).1
        ≡ handle h request)
unfolding process_packet
through_dispatch q s p r h request e = elim (Option-cases (q.from_json p.payload)) [
  | inl f ↦ ground (arith, f, e)
  | inr (rq, f) ↦ elim (Bool-cases (p.message_type == 4)) [
    | inl g ↦ (rq, s.nonce_cache, ground (arith, f, g, e))
    | inr g ↦ (rq, (check_replay_protection q s.nonce_cache rq r).0, ground (arith, f, g, e))
  ]
]

-- Every handler but those of `register` and `login` runs only for an authenticated request.
pub handler-IsAuthenticated :
    (q : Platform) (s : Gateway) (p : Packet) (r : Readings) (h : Handler) (request : Fields)
    → (process_packet q s p r).1 ≡ handle h request
    → h ≢ register
    → h ≢ login
    → IsAuthenticated q s request r.checked
handler-IsAuthenticated q s p r h request e nr nl =
    let (rq, c, d) = through_dispatch q s p r h request e in
    let (same, v, _) =
      dispatch_authenticated q (record s { nonce_cache = c }) p.message_type rq r h request d nr
        nl in
    let a = validate_session-IsAuthenticated q (record s { nonce_cache = c }) rq r.checked v in
    rw (sym same) (record {
      session = a.session;
      stored = a.stored;
      own = a.own;
      token = a.token;
      expiry = a.expiry;
      expires = a.expires;
      current = a.current;
    })

renewal_handlers :
    (m : ℕ) (h : Handler)
    → route session_routes m (codes "token_renew") ≡ some h
    → (h ≡ logout) ⊎ (h ≡ token_renew)
unfolding route
renewal_handlers m h e = ground (arith, e)

-- With a session that has expired, only the handlers of `logout` and `token_renew` can run, besides
-- those of `register` and `login`.
pub expired_handlers :
    (q : Platform) (s : Gateway) (p : Packet) (r : Readings) (h : Handler) (request : Fields)
    (x : SessionInfo) (expiry : ℕ)
    → (process_packet q s p r).1 ≡ handle h request
    → h ≢ register
    → h ≢ login
    → get_session_by_id s.current_session_id s.sessions ≡ some x
    → q.from_iso_date x.expires_at ≡ some expiry
    → expiry < r.checked
    → (h ≡ logout) ⊎ (h ≡ token_renew)
expired_handlers q s p r h request x expiry e nr nl stored date late =
    let (rq, c, d) = through_dispatch q s p r h request e in
    let (_, v, found) =
      dispatch_authenticated q (record s { nonce_cache = c }) p.message_type rq r h request d nr
        nl in
    let a = validate_session-IsAuthenticated q (record s { nonce_cache = c }) rq r.checked v in
    let same : x ≡ a.session = some_inj (sym stored ∙ a.stored) in
    let expiry_same : expiry ≡ a.expiry =
      some_inj (sym date ∙ ap (λ y. q.from_iso_date y.expires_at) same ∙ a.expires) in
    elim a.current [
      | inl ok ↦ absurd (omega arith)
      | inr renew ↦
          renewal_handlers p.message_type h
            (ap (λ t. route session_routes p.message_type t) (sym renew) ∙ found)
    ]
