-- ===== src/LaunchGuard/Counts.antt =====
-- What the guard removes, and the numbers that it returns.
use nexus_arc.Base.{
  ℕ, ◌+◌, ◌≡◌, refl, ◌⊎◌, inl, inr, true, Option, none, some, [], ◌∷◌, ◌++◌, length, code_eq→eq,
  begins_with, arith,
}
use nexus_arc.LaunchGuard.{
  Text, Launches, CustomGuard, key_of, get_launch, in_cooldown, can_launch, cleanup_expired,
  active_count, clear, custom_allows,
}

-- A cleanup leaves the records that count as active, and says how many it removed.
pub cleanup_expired-active_count :
    (cooldown now : ℕ) (m : Launches)
    → let (m', removed) = cleanup_expired cooldown now m in
      (length m' ≡ active_count cooldown now m)
      × (active_count cooldown now m' ≡ active_count cooldown now m)
      × (removed + length m' ≡ length m)
unfolding cleanup_expired active_count
cleanup_expired-active_count cooldown now [] = (refl, refl, refl)
cleanup_expired-active_count cooldown now ((j, r) ∷ m) =
    ground (arith, cleanup_expired-active_count cooldown now m)

begins_with-append : (a b : Text) → begins_with a (a ++ b) ≡ true
begins_with-append [] b = refl
begins_with-append (c ∷ cs) b = ground (arith, begins_with-append cs b)

begins_with-key :
    (issue agent : Text) → begins_with (issue ++ b':' ∷ []) (key_of issue agent) ≡ true
begins_with-key [] agent = ground arith
begins_with-key (c ∷ cs) agent = ground (arith, begins_with-key cs agent)

get_launch-clear :
    (issue agent : Text) (m : Launches)
    → get_launch (key_of issue agent) (clear (some issue) m).0 ≡ none
unfolding get_launch clear
get_launch-clear issue agent [] = refl
get_launch-clear issue agent ((j, r) ∷ m) = ground (
  arith,
  get_launch-clear issue agent m,
  begins_with-key issue agent,
  code_eq→eq j (key_of issue agent),
)

clear_count :
    (issue : Text) (m : Launches)
    → (clear (some issue) m).1 + length (clear (some issue) m).0 ≡ length m
unfolding clear
clear_count issue [] = refl
clear_count issue ((j, r) ∷ m) = ground (arith, clear_count issue m)

-- After a clear, of everything or of an issue, the cooldown blocks no agent for the issue (only the
-- custom guard still decides), and the number that the clear returns is that of the removed records.
pub clear_lem :
    (cooldown : ℕ) (custom_guard : CustomGuard) (now : ℕ) (issue agent : Text) (m : Launches)
    → (o : Option Text) → (o ≡ none) ⊎ (o ≡ some issue)
    → (can_launch cooldown custom_guard now issue agent (clear o m).0
        ≡ custom_allows custom_guard issue agent)
      × ((clear o m).1 + length (clear o m).0 ≡ length m)
unfolding can_launch in_cooldown
clear_lem cooldown custom_guard now issue agent m o (inl e) =
    rw (e) (unfold clear get_launch in (refl, omega arith))
clear_lem cooldown custom_guard now issue agent m o (inr e) =
    rw (e) (ground (arith, get_launch-clear issue agent m), clear_count issue m)
