-- ===== src/RateLimit.antt =====
-- nexus/core/rate_limiter.py: the sliding window limiter with its filesystem or database backend. (The
-- Redis backend, which counts on the Redis server, is not modelled.) Times are ticks of the clock, in
-- seconds; the two reads of the clock in one call are taken as one instant. The nested dictionary of
-- quotas is a function, so that an absent quota is `none`.
pub mod Times
pub mod Window
pub mod Exact
pub mod Tests
use nexus_arc.Base.{
  ℕ, zero, suc, ◌+◌, ◌-◌, ◌%◌, String, Bool, true, false, ◌&&◌, ◌||◌, Option, none, some, List, [],
  ◌∷◌, ◌++◌, length, ltb, leb, ◌==◌, str_eq, if◌then◌else◌, is_some, is_empty,
}

pub record Limit : Type 0 where
  pub max_requests : ℕ
  pub window_seconds : ℕ
  pub name : String

-- `UserQuota`: the times of the requests, the oldest first.
pub record Quota : Type 0 where
  pub user_id : ℕ
  pub timestamps : List ℕ

abbrev pub limit_of : ℕ → ℕ → String → Limit
limit_of max_requests window_seconds name = record {
  max_requests = max_requests;
  window_seconds = window_seconds;
  name = name;
}

-- `DEFAULT_LIMITS`
abbrev pub default_limits : List (String × Limit)
default_limits =
    ("user_global", limit_of 30 60 "30 requests/minute per user")
    ∷ ("user_commands", limit_of 10 60 "10 commands/minute per user")
    ∷ ("logs", limit_of 5 60 "5 log views/minute")
    ∷ ("stats", limit_of 3 60 "3 stats requests/minute")
    ∷ ("direct", limit_of 3 300 "3 direct agent calls/5min")
    ∷ ("reprocess", limit_of 2 300 "2 reprocesses/5min")
    ∷ ("implement", limit_of 5 300 "5 implementations/5min")
    ∷ ("git_api", limit_of 100 3600 "100 API calls/hour")
    ∷ ("git_issue_create", limit_of 10 3600 "10 issue creates/hour")
    ∷ []

abbrev find_limit : String → List (String × Limit) → Option Limit
find_limit action [] = none
find_limit action ((a, l) ∷ ls) = if str_eq a action then some l else find_limit action ls

-- `DEFAULT_LIMITS.get(action)`
unfoldable pub default_limit : String → Option Limit
default_limit action = find_limit action default_limits

pub record Limiter : Type 0 where
  pub user_quotas : ℕ → String → Option Quota
  pub global_quota : Quota

abbrev pub empty_quota : ℕ → Quota
empty_quota user = record { user_id = user; timestamps = [] }

-- `while self.timestamps and self.timestamps[0] < cutoff: self.timestamps.popleft()`, with
-- `cutoff = now - window`.
unfoldable pub drop_old : ℕ → ℕ → List ℕ → List ℕ
drop_old now window [] = []
drop_old now window (t ∷ ts) =
    let rest = drop_old now window ts in if ltb (t + window) now then rest else t ∷ ts

unfoldable pub cleanup_old : ℕ → ℕ → Quota → Quota
cleanup_old now window q = record q { timestamps = drop_old now window q.timestamps }

unfoldable pub count_recent : ℕ → ℕ → Quota → Quota × ℕ
count_recent now window q = let q' = cleanup_old now window q in (q', length q'.timestamps)

unfoldable pub add_request : ℕ → Quota → Quota
add_request now q = record q { timestamps = q.timestamps ++ now ∷ [] }

unfoldable pub set_quota : ℕ → String → Option Quota → Limiter → Limiter
set_quota user action q s = record s {
  user_quotas = λ u a. if (u == user) && str_eq a action then q else s.user_quotas u a;
}

-- `self.user_quotas[user_id][action]`, which makes a missing quota, and `quota.user_id = user_id`.
unfoldable pub quota_for : ℕ → String → Limiter → Quota
quota_for user action s = elim (s.user_quotas user action) [
  | none ↦ empty_quota user
  | some q ↦ record q { user_id = user }
]

-- The answer of `check_limit`: allowed, refused with the waiting time of the message, or the
-- IndexError of `quota.timestamps[0]` on no timestamps.
pub data Answer : Type 0 where
  allowed : Answer
  refused : (wait_time : ℕ) → Answer
  index_error : Answer

unfoldable pub refusal : ℕ → Limit → List ℕ → Answer
refusal now limit [] = index_error
refusal now limit (t ∷ ts) = refused (limit.window_seconds - (now - t))

-- `check_limit` with a limit that is known.
unfoldable pub check_with : ℕ → ℕ → String → Limit → Limiter → Limiter × Answer
check_with now user action limit s =
    let (q, recent) = count_recent now limit.window_seconds (quota_for user action s) in
    let s' = set_quota user action (some q) s in
    if leb limit.max_requests recent then (s', refusal now limit q.timestamps) else (s', allowed)

unfoldable pub check_limit : ℕ → ℕ → String → Option Limit → Limiter → Limiter × Answer
check_limit now user action (some limit) s = check_with now user action limit s
check_limit now user action none s = elim (default_limit action) [
  | none ↦ (s, allowed)
  | some limit ↦ check_with now user action limit s
]

-- One quota under `cleanup_old_data`: cleaned if the action has a default limit, and deleted if
-- nothing is left.
unfoldable pub clean_quota : ℕ → String → Option Quota → Option Quota
clean_quota now action none = none
clean_quota now action (some q) = elim (default_limit action) [
  | none ↦ some q
  | some limit ↦ elim (cleanup_old now limit.window_seconds q).timestamps [
    | [] ↦ none
    | _ ∷ _ ↦ some (cleanup_old now limit.window_seconds q)
  ]
]

unfoldable pub cleanup_old_data : ℕ → Limiter → Limiter
cleanup_old_data now s = record {
  user_quotas = λ u a. clean_quota now a (s.user_quotas u a);
  global_quota = cleanup_old now 3600 s.global_quota;
}

abbrev pub is_global : String → Bool
is_global action = str_eq action "git_api" || str_eq action "git_issue_create"

unfoldable pub record_request : ℕ → ℕ → String → Limiter → Limiter
record_request now user action s =
    let q = add_request now (quota_for user action s) in
    let s₁ = set_quota user action (some q) s in
    let s₂ : Limiter =
      if is_global action
      then record s₁ { global_quota = add_request now s.global_quota }
      else s₁ in
    if (length q.timestamps % 100) == 0 then cleanup_old_data now s₂ else s₂

unfoldable pub check_and_record : ℕ → ℕ → String → Option Limit → Limiter → Limiter × Answer
check_and_record now user action limit s = elim (check_limit now user action limit s).1 [
  | allowed ↦ (record_request now user action (check_limit now user action limit s).0, allowed)
  | other ↦ ((check_limit now user action limit s).0, other)
]

-- `get_remaining`: `none` for the -1 of an action with no limit.
unfoldable pub get_remaining : ℕ → ℕ → String → Limiter → Limiter × Option ℕ
get_remaining now user action s = elim (default_limit action) [
  | none ↦ (s, none)
  | some limit ↦
      let (q, recent) = count_recent now limit.window_seconds (quota_for user action s) in
      (set_quota user action (some q) s, some (limit.max_requests - recent))
]

-- `reset_user`: an action that is None or empty resets all of the user's actions.
unfoldable pub reset_user : ℕ → Option String → Limiter → Limiter
reset_user user none s = record s {
  user_quotas = λ u a. if u == user then none else s.user_quotas u a;
}
reset_user user (some action) s =
    if is_empty action
    then record s { user_quotas = λ u a. if u == user then none else s.user_quotas u a }
    else (if is_some (s.user_quotas user action)
        then set_quota user action (some (empty_quota user)) s
        else s)
