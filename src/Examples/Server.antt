-- ===== src/Examples/Server.antt =====
-- The limiter and the replay cache at concrete inputs.
use xychat_project.Prelude.{◌+◌, ◌*◌, ◌≤◌, ◌≡◌, refl, inl, inr, false, [], ◌∷◌, arith}
use xychat_project.Server.RateWindow
use xychat_project.Server.RateWindow.{
  RateWindow, allow, allowed_between, allowed_between-init, allow_recovers,
}
use xychat_project.Server.NonceCache.{
  NonceCache, check_and_insert, run, step, check, purge, keep_since, lazy_purge, purge_expired,
  is_replay, make_room, record_nonce,
}
use xychat_project.Server.NonceCache.Replay.{accepted_once}

-- The send limit: 30 messages in 10 seconds; six calls around the border of a window.
allowed_between-init_example :
    allowed_between 5 (5 + 10) (RateWindow.init 30 10) (1 ∷ 1 ∷ 9 ∷ 11 ∷ 12 ∷ 20 ∷ []) ≤ 2 * 30
allowed_between-init_example =
    allowed_between-init 30 10 5 (1 ∷ 1 ∷ 9 ∷ 11 ∷ 12 ∷ 20 ∷ []) (omega arith)

-- The server's cache, with one nonce in it.
abbrev seen : NonceCache
seen = record { nonces = (b'a' ∷ [], 990) ∷ []; ttl_seconds = 600; max_entries = 100000 }

accepted_once_example :
    (check_and_insert
      (run
        (check_and_insert seen (b'b' ∷ []) 1000).0
        ((1200, check (b'c' ∷ [])) ∷ (1500, purge) ∷ []))
      (b'b' ∷ [])
      1600).1
    ≡ false
unfolding check_and_insert run step keep_since lazy_purge purge_expired is_replay make_room
    record_nonce
accepted_once_example =
    accepted_once seen (b'b' ∷ []) 1000 1600 ((1200, check (b'c' ∷ [])) ∷ (1500, purge) ∷ []) refl
      ((omega arith, inl (omega arith)), ((omega arith, inr (omega arith)), tt)) (omega arith)
