-- ===== src/LaunchGuard.antt =====
-- nexus/core/guards.py: the guard against launching an agent twice. Times are ticks of the clock, in
-- seconds; a text is the list of its character codes. The ledger is the list of the entries of the
-- dictionary, in its order.
pub mod Cooldown
pub mod Counts
pub mod Tests
use nexus_arc.Base.{
  ℕ, ◌+◌, Bool, true, false, not, Option, none, some, List, [], ◌∷◌, ◌++◌, length, ltb, leb,
  if◌then◌else◌, keep, count_if, code_eq, begins_with,
}

abbrev pub Text : Type 0
Text = List ℕ

pub record LaunchRecord : Type 0 where
  pub issue_id : Text
  pub agent_type : Text
  pub timestamp : ℕ
  pub pid : Option ℕ

abbrev pub Launches : Type 0
Launches = List (Text × LaunchRecord)

-- `f"{issue_id}:{agent_type}"`
abbrev pub key_of : Text → Text → Text
key_of issue_id agent_type = issue_id ++ b':' ∷ agent_type

-- `self._launches.get(key)`
unfoldable pub get_launch : Text → Launches → Option LaunchRecord
get_launch k [] = none
get_launch k ((j, r) ∷ m) = let later = get_launch k m in if code_eq j k then some r else later

-- `self._launches[key] = record`: a key keeps its place.
unfoldable pub put_launch : Text → LaunchRecord → Launches → Launches
put_launch k r [] = (k, r) ∷ []
put_launch k r ((j, v) ∷ m) =
    let later = put_launch k r m in if code_eq j k then (j, r) ∷ m else (j, v) ∷ later

-- The custom guard: none if there is none; a call of it that raises returns none.
abbrev pub CustomGuard : Type 0
CustomGuard = Option (Text → Text → Option Bool)

-- `elapsed < self._cooldown` is `now < timestamp + cooldown`.
unfoldable pub in_cooldown : ℕ → ℕ → Option LaunchRecord → Bool
in_cooldown cooldown now none = false
in_cooldown cooldown now (some r) = ltb now (r.timestamp + cooldown)

unfoldable pub custom_allows : CustomGuard → Text → Text → Bool
custom_allows none issue_id agent_type = true
custom_allows (some guard) issue_id agent_type = elim (guard issue_id agent_type) [
  | none ↦ true
  | some allowed ↦ allowed
]

module _ (cooldown : ℕ) (custom_guard : CustomGuard) where
  unfoldable pub can_launch : ℕ → Text → Text → Launches → Bool
  can_launch now issue_id agent_type m =
      if in_cooldown cooldown now (get_launch (key_of issue_id agent_type) m)
      then false
      else custom_allows custom_guard issue_id agent_type

unfoldable pub record_launch : ℕ → Text → Text → Option ℕ → Launches → Launches
record_launch now issue_id agent_type pid m =
    put_launch (key_of issue_id agent_type)
      (record { issue_id = issue_id; agent_type = agent_type; timestamp = now; pid = pid }) m

-- `clear`: the ledger after it, and the number of records that it removed.
unfoldable pub clear : Option Text → Launches → Launches × ℕ
clear none m = ([], length m)
clear (some issue_id) m =
    let hit = λ (e : Text × LaunchRecord). begins_with (issue_id ++ b':' ∷ []) e.0 in
    (keep (λ e. not (hit e)) m, count_if hit m)

-- `(now - rec.timestamp) > self._cooldown`
abbrev pub is_expired : ℕ → ℕ → LaunchRecord → Bool
is_expired cooldown now r = ltb (r.timestamp + cooldown) now

unfoldable pub cleanup_expired : ℕ → ℕ → Launches → Launches × ℕ
cleanup_expired cooldown now m =
    (keep (λ e. not (is_expired cooldown now e.1)) m, count_if (λ e. is_expired cooldown now e.1) m)

-- `(now - rec.timestamp) <= self._cooldown`
unfoldable pub active_count : ℕ → ℕ → Launches → ℕ
active_count cooldown now m = count_if (λ e. leb now (e.1.timestamp + cooldown)) m
