-- ===== src/Server/FileHttp/Windows.antt =====
-- Chat-Server/http/FileHttpService.cpp: the windows that count the refused requests of an address.
-- A difference of two times is below the window's length, or not, also where the clock went back.
use xychat_project.Prelude.{
  ℕ, ◌+◌, ◌-◌, ◌/◌, Bool, true, false, ◌&&◌, List, [], ◌∷◌, ltb, leb, length, Option, none, some,
  if◌then◌else◌,
}
use xychat_project.Prelude.Assoc.{text_eq, lookup, insert}

abbrev pub max_auth_failures_per_window : ℕ
max_auth_failures_per_window = 30

abbrev pub auth_failure_window_seconds : ℕ
auth_failure_window_seconds = 60

abbrev pub max_tracked_addresses : ℕ
max_tracked_addresses = 4096

pub record AuthFailureWindow : Type 0 where
  pub window_start : ℕ
  pub count : ℕ

abbrev pub FailureWindows : Type 0
FailureWindows = List (List ℕ × AuthFailureWindow)

-- `nowSecs - windowStart >= AuthFailureWindowSeconds`.
abbrev pub is_over : ℕ → AuthFailureWindow → Bool
is_over now w = leb auth_failure_window_seconds (now - w.window_start)

unfoldable pub erase_over : ℕ → FailureWindows → FailureWindows
erase_over now [] = []
erase_over now ((ip, w) ∷ ws) =
    let rest = erase_over now ws in if is_over now w then rest else (ip, w) ∷ rest

abbrev pub clear_above : FailureWindows → FailureWindows
clear_above ws = if ltb max_tracked_addresses (length ws) then [] else ws

-- `pruneFailureWindows`.
unfoldable pub prune_failure_windows : FailureWindows → ℕ → FailureWindows
prune_failure_windows ws now =
    if leb (length ws) (max_tracked_addresses / 2) then ws else clear_above (erase_over now ws)

abbrev pub is_abusing : ℕ → Option AuthFailureWindow → Bool
is_abusing now none = false
is_abusing now (some w) =
    ltb (now - w.window_start) auth_failure_window_seconds
    && leb max_auth_failures_per_window w.count

abbrev pub is_empty : List ℕ → Bool
is_empty [] = true
is_empty (c ∷ cs) = false

-- `rejectIfAbusing`: the pruned windows, and whether the request is refused.
unfoldable pub reject_if_abusing : FailureWindows → List ℕ → ℕ → FailureWindows × Bool
reject_if_abusing ws ip now =
    let pruned = prune_failure_windows ws now in
    (pruned, if is_empty ip then false else is_abusing now (lookup text_eq ip pruned))

-- `m_failureWindows[ip]`, which is a window at 0 for a new address.
abbrev pub window_or_new : Option AuthFailureWindow → AuthFailureWindow
window_or_new none = record { window_start = 0; count = 0 }
window_or_new (some w) = w

abbrev pub restart_window : ℕ → AuthFailureWindow → AuthFailureWindow
restart_window now w = if is_over now w then record { window_start = now; count = 0 } else w

abbrev pub count_failure : ℕ → AuthFailureWindow → AuthFailureWindow
count_failure now w = record (restart_window now w) { count = (restart_window now w).count + 1 }

abbrev pub prune_if_above : ℕ → FailureWindows → FailureWindows
prune_if_above now ws =
    if ltb max_tracked_addresses (length ws) then prune_failure_windows ws now else ws

unfoldable pub note_auth_failure : FailureWindows → List ℕ → ℕ → FailureWindows
note_auth_failure ws ip now =
    if is_empty ip
    then ws
    else prune_if_above now
        (insert text_eq ip (count_failure now (window_or_new (lookup text_eq ip ws))) ws)
