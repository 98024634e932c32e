-- ===== src/LaunchGuard/Cooldown.antt =====
-- nexus/core/guards.py: interleavings of guarded launches and cleanups.
use nexus_arc.Base.{
  ℕ, ◌+◌, ◌≤◌, ◌<◌, ◌≡◌, refl, ◌⊎◌, inl, inr, true, false, ◌&&◌, Option, some, List, [], ◌∷◌,
  if◌then◌else◌, code_eq, code_eq_refl, code_eq→eq, arith, Bool-cases,
}
use nexus_arc.LaunchGuard.{
  Text, LaunchRecord, Launches, CustomGuard, key_of, get_launch, put_launch, in_cooldown,
  can_launch, record_launch, is_expired, cleanup_expired,
}

get_launch-put_launch :
    (k j : Text) (r : LaunchRecord) (m : Launches)
    → get_launch j (put_launch k r m) ≡ (if code_eq k j then some r else get_launch j m)
unfolding get_launch put_launch
get_launch-put_launch k j r [] = refl
get_launch-put_launch k j r ((i, v) ∷ m) = ground (
  arith,
  get_launch-put_launch k j r m,
  code_eq→eq i k,
  code_eq→eq i j,
  code_eq→eq k j,
  code_eq_refl k,
  code_eq_refl j,
)

-- A cleanup, or a launch that is made if the guard allows it.
pub data Event : Type 0 where
  cleanup : (now : ℕ) → Event
  attempt : (now : ℕ) (issue_id agent_type : Text) (pid : Option ℕ) → Event

abbrev pub time_of : Event → ℕ
time_of (cleanup now) = now
time_of (attempt now issue_id agent_type pid) = now

-- Times, the last one first, that are at least a number of seconds apart.
abbrev pub Spaced : ℕ → List ℕ → Type 0
Spaced gap [] = Unit
Spaced gap (t ∷ []) = Unit
Spaced gap (t ∷ u ∷ h) = (u + gap ≤ t) × Spaced gap (u ∷ h)

-- The clock does not run backwards.
abbrev pub InOrder : ℕ → List Event → Type 0
InOrder last [] = Unit
InOrder last (e ∷ es) = (last ≤ time_of e) × InOrder (time_of e) es

module _ (cooldown : ℕ) (custom_guard : CustomGuard) where
  unfoldable pub step : Event → Launches → Launches
  step (cleanup now) m = (cleanup_expired cooldown now m).0
  step (attempt now issue agent pid) m =
      if can_launch cooldown custom_guard now issue agent m
      then record_launch now issue agent pid m
      else m

  -- What a cleanup leaves of a record that is not expired.
  get_launch-cleanup :
      (now : ℕ) (k : Text) (r : LaunchRecord) (m : Launches)
      → get_launch k m ≡ some r
      → is_expired cooldown now r ≡ false
      → get_launch k (cleanup_expired cooldown now m).0 ≡ some r
  unfolding get_launch cleanup_expired
  get_launch-cleanup now k r [] e h = e
  get_launch-cleanup now k r ((j, v) ∷ m) e h = elim (Bool-cases (code_eq j k)) [
    | inl c ↦ ground (arith, e, h, c)
    | inr c ↦ ground (arith, e, h, c, get_launch-cleanup now k r m)
  ]

  module _ (issue_id agent_type : Text) where
    -- The times at which the agent was launched for the issue, the last one first.
    unfoldable pub launches : List Event → Launches → List ℕ → List ℕ
    launches [] m h = h
    launches (cleanup now ∷ es) m h = launches es (step (cleanup now) m) h
    launches (attempt now issue agent pid ∷ es) m h =
        launches es (step (attempt now issue agent pid) m) (
          if can_launch cooldown custom_guard now issue agent m
            && (code_eq issue_id issue && code_eq agent_type agent)
          then now ∷ h
          else h)

    -- The last launch is over for longer than the cooldown, or a record at least as new is kept.
    abbrev Recent : ℕ → Launches → List ℕ → Type 0
    Recent last m [] = Unit
    Recent last m (t ∷ h) =
        (t ≤ last)
        × ((t + cooldown < last)
            ⊎ ((r : LaunchRecord) × (get_launch (key_of issue_id agent_type) m ≡ some r)
                × (t ≤ r.timestamp)))

    cleanup-Recent :
        (last now : ℕ) (m : Launches) (h : List ℕ)
        → last ≤ now
        → Recent last m h
        → Recent now (step (cleanup now) m) h
    unfolding step
    cleanup-Recent last now m [] le old = tt
    cleanup-Recent last now m (t ∷ h) le (before, inl over) = (omega arith, inl (omega arith))
    cleanup-Recent last now m (t ∷ h) le (before, inr (r, found, newer)) =
        elim (Bool-cases (is_expired cooldown now r)) [
          | inl e ↦ (omega arith, inl (ground arith))
          | inr e ↦ (omega arith, inr (r, get_launch-cleanup now _ r m found e, newer))
        ]

    -- Any recorded launch leaves a record at least as new, also one with the same key.
    record-Recent :
        (last now : ℕ) (issue agent : Text) (pid : Option ℕ) (m : Launches) (h : List ℕ)
        → last ≤ now
        → Recent last m h
        → Recent now (record_launch now issue agent pid m) h
    unfolding record_launch
    record-Recent last now issue agent pid m [] le old = tt
    record-Recent last now issue agent pid m (t ∷ h) le (before, inl over) =
        (omega arith, inl (omega arith))
    record-Recent last now issue agent pid m (t ∷ h) le (before, inr (r, found, newer)) =
        let k = key_of issue_id agent_type in
        let j = key_of issue agent in
        let new : LaunchRecord = record {
          issue_id = issue;
          agent_type = agent;
          timestamp = now;
          pid = pid;
        } in
        let put = get_launch-put_launch j k new m in
        elim (Bool-cases (code_eq j k)) [
          | inl c ↦ (omega arith, inr (new, rw (put, c), omega arith))
          | inr c ↦ (omega arith, inr (r, rw (put, c) found, newer))
        ]

    -- A launch that the guard allows comes after the cooldown of the last one.
    allowed-Spaced :
        (last now : ℕ) (m : Launches) (h : List ℕ)
        → last ≤ now
        → Recent last m h
        → Spaced cooldown h
        → can_launch cooldown custom_guard now issue_id agent_type m ≡ true
        → Spaced cooldown (now ∷ h)
    unfolding can_launch in_cooldown
    allowed-Spaced last now m [] le old ok can = tt
    allowed-Spaced last now m (t ∷ h) le (before, inl over) ok can = (omega arith, ok)
    allowed-Spaced last now m (t ∷ h) le (before, inr (r, found, newer)) ok can =
        (ground (arith, can, found), ok)

    same_pair :
        (issue agent : Text)
        → (code_eq issue_id issue && code_eq agent_type agent) ≡ true
        → (issue_id ≡ issue) × (agent_type ≡ agent)
    same_pair issue agent e =
        ground (arith, e, code_eq→eq issue_id issue, code_eq→eq agent_type agent)

    later-Recent :
        (last now : ℕ) (m : Launches) (h : List ℕ) → last ≤ now → Recent last m h → Recent now m h
    later-Recent last now m [] le old = tt
    later-Recent last now m (t ∷ h) le (before, inl over) = (omega arith, inl (omega arith))
    later-Recent last now m (t ∷ h) le (before, inr kept) = (omega arith, inr kept)

    own-Recent :
        (now : ℕ) (issue agent : Text) (pid : Option ℕ) (m : Launches) (h : List ℕ)
        → issue_id ≡ issue
        → agent_type ≡ agent
        → Recent now (record_launch now issue agent pid m) (now ∷ h)
    unfolding record_launch
    own-Recent now issue agent pid m h p q =
        let k = key_of issue agent in
        let new : LaunchRecord = record {
          issue_id = issue;
          agent_type = agent;
          timestamp = now;
          pid = pid;
        } in
        (
          omega arith,
          inr (new, rw (p, q, get_launch-put_launch k k new m, code_eq_refl k), omega arith),
        )

    launches-Spaced_from :
        (es : List Event) (last : ℕ) (m : Launches) (h : List ℕ)
        → InOrder last es
        → Recent last m h
        → Spaced cooldown h
        → Spaced cooldown (launches es m h)
    unfolding launches step
    launches-Spaced_from [] last m h o old ok = ok
    launches-Spaced_from (cleanup now ∷ es) last m h o old ok =
        launches-Spaced_from es now (step (cleanup now) m) h o.1
          (cleanup-Recent last now m h o.0 old) ok
    launches-Spaced_from (attempt now issue agent pid ∷ es) last m h o old ok =
        elim (Bool-cases (can_launch cooldown custom_guard now issue agent m)) [
          | inr blocked ↦
              rw (blocked)
                (launches-Spaced_from es now m h o.1 (later-Recent last now m h o.0 old) ok)
          | inl can ↦ elim (Bool-cases (code_eq issue_id issue && code_eq agent_type agent)) [
            | inr other ↦
                rw (can, other)
                  (launches-Spaced_from es now (record_launch now issue agent pid m) h o.1
                    (record-Recent last now issue agent pid m h o.0 old) ok)
            | inl own ↦
                let (p, q) = same_pair issue agent own in
                let mine : can_launch cooldown custom_guard now issue_id agent_type m ≡ true =
                  rw (p, q) can in
                rw (can, own)
                  (launches-Spaced_from es now (record_launch now issue agent pid m) (now ∷ h) o.1
                    (own-Recent now issue agent pid m h p q)
                    (allowed-Spaced last now m h o.0 old ok mine))
          ]
        ]

-- The launches of an agent for an issue that the guard allows are at least the cooldown apart, in any
-- interleaving of guarded launches of all agents for all issues with cleanups, as long as the clock
-- does not run backwards. It starts with any ledger: nothing was launched before that counts.
pub launches-Spaced :
    (cooldown : ℕ) (custom_guard : CustomGuard) (issue_id agent_type : Text) (es : List Event)
    (m : Launches)
    → InOrder 0 es
    → Spaced cooldown (launches cooldown custom_guard issue_id agent_type es m [])
launches-Spaced cooldown custom_guard issue_id agent_type es m o =
    launches-Spaced_from cooldown custom_guard issue_id agent_type es 0 m [] o tt tt
