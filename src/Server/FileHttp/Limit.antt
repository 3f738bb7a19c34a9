-- ===== src/Server/FileHttp/Limit.antt =====
-- Chat-Server/http/FileHttpService.cpp: how failed requests limit an address, and how many addresses
-- are tracked.
use xychat_project.Prelude.{
  ℕ, ◌+◌, ◌-◌, ◌/◌, ◌≤◌, ◌<◌, ◌≡◌, refl, Bool, true, false, List, [], ◌∷◌, ltb, leb, length, some,
  if◌then◌else◌, arith, Bool-cases, inl, inr,
}
use xychat_project.Prelude.Assoc.{text_eq, text_beq, text_beq_iff, lookup, insert, lookup-insert}
use xychat_project.Server.FileHttp.{
  HttpWorld, FileHttpService, HttpRequest, too_many_requests, error, handle_chunk_put,
  handle_blob_get,
}
use xychat_project.Server.FileHttp.Windows.{
  AuthFailureWindow, FailureWindows, is_over, erase_over, prune_failure_windows, is_empty,
  reject_if_abusing, window_or_new, count_failure, note_auth_failure, max_tracked_addresses,
  max_auth_failures_per_window, auth_failure_window_seconds,
}

length-erase_over : (now : ℕ) (ws : FailureWindows) → length (erase_over now ws) ≤ length ws
unfolding erase_over
length-erase_over now [] = omega arith
length-erase_over now ((ip, w) ∷ ws) = ground (arith, length-erase_over now ws)

length-insert :
    (ip : List ℕ) (w : AuthFailureWindow) (ws : FailureWindows)
    → length (insert text_eq ip w ws) ≤ length ws + 1
length-insert ip w [] = omega arith
length-insert ip w ((k, v) ∷ ws) = ground (arith, length-insert ip w ws)

prune_bounded :
    (ws : FailureWindows) (now : ℕ) → length (prune_failure_windows ws now) ≤ max_tracked_addresses
unfolding prune_failure_windows
prune_bounded ws now = elim (Bool-cases (leb (length ws) (max_tracked_addresses / 2))) [
  | inl e ↦ ground (arith, e)
  | inr e ↦ ground (arith, e)
]

-- Whatever happens, a check and a failure leave at most 4096 tracked addresses, if there were no
-- more before.
pub tracked_addresses_bounded :
    (ws : FailureWindows) (ip : List ℕ) (now : ℕ)
    → length ws ≤ max_tracked_addresses
    → (length (reject_if_abusing ws ip now).0 ≤ max_tracked_addresses)
      × (length (note_auth_failure ws ip now) ≤ max_tracked_addresses)
unfolding reject_if_abusing note_auth_failure
tracked_addresses_bounded ws ip now h =
    let noted = insert text_eq ip (count_failure now (window_or_new (lookup text_eq ip ws))) ws in
    (prune_bounded ws now, ground (arith, prune_bounded noted now))

lookup-erase_over :
    (ip : List ℕ) (w : AuthFailureWindow) (now : ℕ) (ws : FailureWindows)
    → lookup text_eq ip ws ≡ some w
    → is_over now w ≡ false
    → lookup text_eq ip (erase_over now ws) ≡ some w
unfolding erase_over
lookup-erase_over ip w now [] h o = absurd (ground arith)
lookup-erase_over ip w now ((k, v) ∷ ws) h o = elim (Bool-cases (text_beq k ip)) [
  | inl e ↦ ground (arith, e, h, o)
  | inr e ↦ ground (arith, e, h, o, lookup-erase_over ip w now ws)
]

-- What requests of any addresses do to the windows, with their times.
pub data WindowEvent : Type 0 where
  checked : List ℕ → ℕ → WindowEvent
  noted : List ℕ → ℕ → WindowEvent

abbrev pub on_event : FailureWindows → WindowEvent → FailureWindows
on_event ws (checked ip now) = (reject_if_abusing ws ip now).0
on_event ws (noted ip now) = note_auth_failure ws ip now

abbrev pub after_events : FailureWindows → List WindowEvent → FailureWindows
after_events ws [] = ws
after_events ws (e ∷ es) = after_events (on_event ws e) es

abbrev pub time_of : WindowEvent → ℕ
time_of (checked ip now) = now
time_of (noted ip now) = now

abbrev pub failures_of : List ℕ → List WindowEvent → ℕ
failures_of ip [] = 0
failures_of ip (checked k now ∷ es) = failures_of ip es
failures_of ip (noted k now ∷ es) = (if text_beq k ip then 1 else 0) + failures_of ip es

abbrev in_window : ℕ → ℕ → Bool
in_window start now = ltb (now - start) auth_failure_window_seconds

-- Every event is in the window that begins at `start`.
abbrev pub all_in_window : ℕ → List WindowEvent → Bool
all_in_window start [] = true
all_in_window start (e ∷ es) = if in_window start (time_of e) then all_in_window start es else false

abbrev window : ℕ → ℕ → AuthFailureWindow
window start n = record { window_start = start; count = n }

length-prune : (ws : FailureWindows) (now : ℕ) → length (prune_failure_windows ws now) ≤ length ws
unfolding prune_failure_windows
length-prune ws now = ground (arith, length-erase_over now ws)

lookup-prune :
    (ip : List ℕ) (start n now : ℕ) (ws : FailureWindows)
    → lookup text_eq ip ws ≡ some (window start n)
    → in_window start now ≡ true
    → length ws ≤ max_tracked_addresses
    → lookup text_eq ip (prune_failure_windows ws now) ≡ some (window start n)
unfolding prune_failure_windows
lookup-prune ip start n now ws h o l =
    ground (arith, h, o, length-erase_over now ws, lookup-erase_over ip (window start n) now ws)

inserted :
    (k : List ℕ) (now : ℕ) (ws : FailureWindows)
    → length ws < max_tracked_addresses
    → is_empty k ≡ false
    → note_auth_failure ws k now
      ≡ insert text_eq k (count_failure now (window_or_new (lookup text_eq k ws))) ws
unfolding note_auth_failure
inserted k now ws l e =
    ground (arith, e, length-insert k (count_failure now (window_or_new (lookup text_eq k ws))) ws)

not_counted :
    (k : List ℕ) (now : ℕ) (ws : FailureWindows)
    → is_empty k ≡ true
    → note_auth_failure ws k now ≡ ws
unfolding note_auth_failure
not_counted k now ws e = ground (arith, e)

empty_differs : (k ip : List ℕ) → is_empty k ≡ true → is_empty ip ≡ false → text_beq k ip ≡ false
empty_differs [] [] e f = absurd (ground arith)
empty_differs [] (c ∷ cs) e f = refl
empty_differs (c ∷ cs) ip e f = absurd (ground arith)

counted :
    (start n now : ℕ)
    → in_window start now ≡ true
    → count_failure now (window start n) ≡ window start (n + 1)
counted start n now o = ground (arith, o)

noted_window :
    (ip k : List ℕ) (start n now : ℕ) (ws : FailureWindows)
    → is_empty ip ≡ false
    → lookup text_eq ip ws ≡ some (window start n)
    → in_window start now ≡ true
    → length ws < max_tracked_addresses
    → (lookup text_eq ip (note_auth_failure ws k now)
        ≡ some (window start ((if text_beq k ip then 1 else 0) + n)))
      × (length (note_auth_failure ws k now) ≤ length ws + 1)
noted_window ip k start n now ws ne h o l = elim (Bool-cases (is_empty k)) [
  | inl e ↦ ground (arith, h, not_counted k now ws e, empty_differs k ip e ne)
  | inr e ↦
      let w = count_failure now (window_or_new (lookup text_eq k ws)) in
      elim (Bool-cases (text_beq k ip)) [
        | inl f ↦
            let same : k ≡ ip = (text_beq_iff k ip).0 f in
            let found : lookup text_eq k ws ≡ some (window start n) = rw same h in
            ground (
              arith,
              f,
              inserted k now ws l e,
              found,
              counted start n now o,
              lookup-insert text_eq ip k w ws,
              length-insert k w ws,
            )
        | inr f ↦ ground (
          arith,
          f,
          inserted k now ws l e,
          h,
          lookup-insert text_eq ip k w ws,
          length-insert k w ws,
        )
      ]
]

after_events-window :
    (ip : List ℕ) (start n : ℕ) (ws : FailureWindows) (es : List WindowEvent)
    → is_empty ip ≡ false
    → lookup text_eq ip ws ≡ some (window start n)
    → all_in_window start es ≡ true
    → length ws + length es ≤ max_tracked_addresses
    → (lookup text_eq ip (after_events ws es) ≡ some (window start (failures_of ip es + n)))
      × (length (after_events ws es) ≤ max_tracked_addresses)
unfolding reject_if_abusing
after_events-window ip start n ws [] ne h o l = ground (arith, h)
after_events-window ip start n ws (checked k now ∷ es) ne h o l =
    let at : in_window start now ≡ true = ground (arith, o) in
    let p = lookup-prune ip start n now ws h at (omega arith) in
    let m = length-prune ws now in
    after_events-window ip start n (prune_failure_windows ws now) es ne p (ground (arith, o))
      (omega arith)
after_events-window ip start n ws (noted k now ∷ es) ne h o l =
    let at : in_window start now ≡ true = ground (arith, o) in
    let p = noted_window ip k start n now ws ne h at (omega arith) in
    ground (
      arith,
      after_events-window ip start ((if text_beq k ip then 1 else 0) + n)
          (note_auth_failure ws k now) es ne (p.0) (ground (arith, o)) (omega (arith, p.1)),
    )

rejects :
    (ws : FailureWindows) (ip : List ℕ) (start n now : ℕ)
    → is_empty ip ≡ false
    → lookup text_eq ip ws ≡ some (window start n)
    → in_window start now ≡ true
    → length ws ≤ max_tracked_addresses
    → max_auth_failures_per_window ≤ n
    → (reject_if_abusing ws ip now).1 ≡ true
unfolding reject_if_abusing
rejects ws ip start n now ne h o l m =
    ground (arith, ne, o, m, lookup-prune ip start n now ws h o l)

-- Once an address has a window, and the failures in it and in what follows within its 60 seconds are
-- 30 or more, every further request of the address in that time is refused with "too many
-- requests", whatever ticket it carries, and leaves tickets, files and stored data as they were.
-- The events in between are checks and failures of any addresses, at times in any order, as long
-- as the addresses tracked before and the events are not more than 4096 together.
pub abusing_address_refused :
    (w : HttpWorld) (s : FileHttpService) (r : HttpRequest) (file_text index_text : List ℕ)
    (start n now : ℕ) (es : List WindowEvent)
    → is_empty r.ip ≡ false
    → lookup text_eq r.ip s.failure_windows ≡ some (record { window_start = start; count = n })
    → all_in_window start es ≡ true
    → length s.failure_windows + length es ≤ max_tracked_addresses
    → max_auth_failures_per_window ≤ failures_of r.ip es + n
    → ltb (now - start) auth_failure_window_seconds ≡ true
    → let s' = record s { failure_windows = after_events s.failure_windows es } in
      let put = handle_chunk_put w s' r file_text index_text now in
      let get = handle_blob_get w s' r file_text now in
      (put.1 ≡ error too_many_requests)
      × (get.1 ≡ error too_many_requests)
      × ((put.0).tickets ≡ s.tickets)
      × ((put.0).files ≡ s.files)
      × ((put.0).storage ≡ s.storage)
      × ((get.0).tickets ≡ s.tickets)
      × ((get.0).files ≡ s.files)
      × ((get.0).storage ≡ s.storage)
unfolding handle_chunk_put handle_blob_get
abusing_address_refused w s r file_text index_text start n now es ne h o l m t =
    let ws = after_events s.failure_windows es in
    let p = after_events-window r.ip start n s.failure_windows es ne h o l in
    let q = rejects ws r.ip start (failures_of r.ip es + n) now ne (p.0) t (p.1) m in
    (
      ground (arith, q),
      ground (arith, q),
      ground (arith, q),
      ground (arith, q),
      ground (arith, q),
      ground (arith, q),
      ground (arith, q),
      ground (arith, q),
    )
