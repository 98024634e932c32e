-- ===== src/LaunchGuard/Tests.antt =====
-- A run of the guard, and the theorems at it.
use nexus_arc.Base.{◌+◌, ◌≡◌, refl, inr, none, some, List, [], ◌∷◌, codes, arith, length}
use nexus_arc.LaunchGuard.{
  Launches, get_launch, put_launch, in_cooldown, custom_allows, can_launch, record_launch,
  cleanup_expired, active_count, clear,
}
use nexus_arc.LaunchGuard.Cooldown.{
  Event, cleanup, attempt, step, launches, InOrder, Spaced, launches-Spaced,
}
use nexus_arc.LaunchGuard.Counts.{clear_lem}

events : List Event
events =
    attempt 10 (codes "42") (codes "debug") none
    ∷ attempt 20 (codes "42") (codes "review") none
    ∷ attempt 300 (codes "42") (codes "debug") none
    ∷ cleanup 309
    ∷ attempt 310 (codes "42") (codes "debug") none
    ∷ []

two_launches : Launches
two_launches =
    record_launch 200 (codes "7") (codes "debug") none
      (record_launch 10 (codes "42") (codes "debug") (some 99) [])

program : Unit {0}
unfolding events two_launches get_launch put_launch in_cooldown custom_allows can_launch
    record_launch cleanup_expired active_count clear step launches
program = tt

launches-events : launches 300 none (codes "42") (codes "debug") events [] [] ≡ 310 ∷ 10 ∷ []
unfolding program
launches-events = refl

events-InOrder : InOrder 0 events
unfolding program
events-InOrder = (omega arith, (omega arith, (omega arith, (omega arith, (omega arith, tt)))))

launches-Spaced_example : Spaced 300 (launches 300 none (codes "42") (codes "debug") events [] [])
launches-Spaced_example =
    launches-Spaced 300 none (codes "42") (codes "debug") events [] events-InOrder

active_count-two_launches : active_count 300 400 two_launches ≡ 1
unfolding program
active_count-two_launches = refl

clear_lem_example :
    (can_launch 300 none 20 (codes "42") (codes "debug") (clear (some (codes "42")) two_launches).0
      ≡ custom_allows none (codes "42") (codes "debug"))
    × ((clear (some (codes "42")) two_launches).1
          + length (clear (some (codes "42")) two_launches).0
        ≡ length two_launches)
clear_lem_example =
    clear_lem 300 none 20 (codes "42") (codes "debug") two_launches (some (codes "42")) (inr refl)
