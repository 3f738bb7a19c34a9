-- ===== src/Examples/OnlineRegistry.antt =====
-- The online registry at concrete inputs: a user with two devices, one of which disconnects.
use xychat_project.Prelude.{◌≡◌, ◌↔◌, true, List, [], ◌∷◌, length}
use xychat_project.Prelude.Int.{ℤ, pos}
use xychat_project.Server.OnlineRegistry.{
  contains, is_online, online_user_ids, online_user_count, RegistryCall, add, remove, run,
}
use xychat_project.Server.OnlineRegistry.Refinement.{
  holds, nobody, replay, is_distinct, run_refines,
}

abbrev calls : List RegistryCall
calls =
    add (pos 7) (pos 1)
    ∷ add (pos 7) (pos 2)
    ∷ add (pos 8) (pos 3)
    ∷ remove (pos 7) (pos 1)
    ∷ remove (pos 8) (pos 3)
    ∷ remove (pos 8) (pos 3)
    ∷ add (pos 0) (pos 4)
    ∷ []

run_refines_example :
    ((s : ℤ) → holds (run [] calls) (pos 7) s ≡ replay nobody calls (pos 7) s)
    × ((is_online (run [] calls) (pos 7) ≡ true)
        ↔ ((s : ℤ) × (replay nobody calls (pos 7) s ≡ true)))
    × (contains (pos 7) (online_user_ids (run [] calls)) ≡ is_online (run [] calls) (pos 7))
    × (is_distinct (online_user_ids (run [] calls)) ≡ true)
    × (length (online_user_ids (run [] calls)) ≡ online_user_count (run [] calls))
run_refines_example = run_refines calls (pos 7)
