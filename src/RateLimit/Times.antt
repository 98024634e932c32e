-- ===== src/RateLimit/Times.antt =====
-- How the limiter's operations change the times that it keeps for one user and action.
use nexus_arc.Base.{
  ℕ, ◌+◌, ◌≤◌, ◌<◌, ◌%◌, ◌≡◌, refl, sym, String, Bool, true, false, ◌&&◌, Option, none, some, List,
  [], ◌∷◌, ◌++◌, length, count_if, leb, ◌==◌, str_eq, if◌then◌else◌, arith, List-cases, ap, ◌⊎◌,
  inl, inr, ==_iff, eq_iff, if_ind,
}
use nexus_arc.RateLimit.{
  Limit, Quota, Limiter, default_limit, drop_old, cleanup_old, count_recent, add_request, set_quota,
  quota_for, Answer, allowed, refused, index_error, check_with, check_limit, clean_quota,
  cleanup_old_data, record_request, check_and_record, refusal, is_global,
}

-- The times kept for a user and an action; none for an absent quota.
abbrev pub kept_times : Option Quota → List ℕ
kept_times none = []
kept_times (some q) = q.timestamps

abbrev pub times : ℕ → String → Limiter → List ℕ
times user action s = kept_times (s.user_quotas user action)

-- How many of the times lie in the window that ends at an instant.
abbrev pub in_window : ℕ → ℕ → List ℕ → ℕ
in_window window n ts = count_if (λ t. leb n (t + window)) ts

pub in_window-le : (window n : ℕ) (ts : List ℕ) → in_window window n ts ≤ length ts
in_window-le window n [] = omega arith
in_window-le window n (t ∷ ts) = ground (arith, in_window-le window n ts)

pub in_window-append :
    (window n : ℕ) (ts : List ℕ) (t : ℕ)
    → in_window window n (ts ++ t ∷ []) ≡ in_window window n ts + in_window window n (t ∷ [])
in_window-append window n [] t = ground arith
in_window-append window n (x ∷ ts) t = ground (arith, in_window-append window n ts t)

-- What is dropped lies in no later window.
pub in_window-drop_old :
    (window now n : ℕ) (ts : List ℕ)
    → now ≤ n
    → in_window window n (drop_old now window ts) ≡ in_window window n ts
unfolding drop_old
in_window-drop_old window now n [] h = refl
in_window-drop_old window now n (t ∷ ts) h = ground (arith, in_window-drop_old window now n ts h)

times-set_quota :
    (u v : ℕ) (a b : String) (q : Quota) (s : Limiter)
    → times u a (set_quota v b (some q) s)
      ≡ (if (u == v) && str_eq a b then q.timestamps else times u a s)
unfolding set_quota
times-set_quota u v a b q s = ground arith

times-quota_for : (u : ℕ) (a : String) (s : Limiter) → (quota_for u a s).timestamps ≡ times u a s
unfolding quota_for
times-quota_for u a s = ground arith

clean_quota-times :
    (now : ℕ) (a : String) (limit : Limit) (o : Option Quota)
    → default_limit a ≡ some limit
    → kept_times (clean_quota now a o) ≡ drop_old now limit.window_seconds (kept_times o)
unfolding clean_quota cleanup_old
clean_quota-times now a limit none h = unfold drop_old in refl
clean_quota-times now a limit (some q) h =
    elim (List-cases (drop_old now limit.window_seconds q.timestamps)) [
      | inl d ↦ rw (h, clean_quota) (rw (d, clean_quota))
      | inr (t, ts, d) ↦ rw (h, clean_quota) (rw (d, clean_quota) d)
    ]

pub times-cleanup_old_data :
    (now u : ℕ) (a : String) (limit : Limit) (s : Limiter)
    → default_limit a ≡ some limit
    → times u a (cleanup_old_data now s) ≡ drop_old now limit.window_seconds (times u a s)
unfolding cleanup_old_data
times-cleanup_old_data now u a limit s h = clean_quota-times now a limit (s.user_quotas u a) h

check_with-state :
    (now v : ℕ) (b : String) (limit : Limit) (s : Limiter)
    → (check_with now v b limit s).0
      ≡ set_quota v b (some (cleanup_old now limit.window_seconds (quota_for v b s))) s
unfolding check_with count_recent
check_with-state now v b limit s = ground arith

pub cleaned-times :
    (now v : ℕ) (b : String) (limit : Limit) (s : Limiter)
    → (cleanup_old now limit.window_seconds (quota_for v b s)).timestamps
      ≡ drop_old now limit.window_seconds (times v b s)
unfolding cleanup_old
cleaned-times now v b limit s = ap (drop_old now limit.window_seconds) (times-quota_for v b s)

pub times-check_with :
    (now u v : ℕ) (a b : String) (limit : Limit) (s : Limiter)
    → times u a (check_with now v b limit s).0 ≡ (
        if (u == v) && str_eq a b
        then drop_old now limit.window_seconds (times v b s)
        else times u a s)
times-check_with now u v a b limit s = rw (
  check_with-state now v b limit s,
  times-set_quota u v a b (cleanup_old now limit.window_seconds (quota_for v b s)) s,
  cleaned-times now v b limit s,
)

refusal_no_room :
    (now : ℕ) (limit : Limit) (ts : List ℕ)
    → refusal now limit ts ≡ allowed
    → length ts < limit.max_requests
unfolding refusal
refusal_no_room now limit [] e = ground (arith, e)
refusal_no_room now limit (t ∷ ts) e = ground (arith, e)

-- A check that lets a request through has found room for it.
pub check_with_room :
    (now v : ℕ) (b : String) (limit : Limit) (s : Limiter)
    → (check_with now v b limit s).1 ≡ allowed
    → length (drop_old now limit.window_seconds (times v b s)) < limit.max_requests
unfolding check_with count_recent
check_with_room now v b limit s =
    let ts = (cleanup_old now limit.window_seconds (quota_for v b s)).timestamps in
    rw (sym (cleaned-times now v b limit s)) (
      if_ind (λ (x : Limiter × Answer). x.1 ≡ allowed → length ts < limit.max_requests)
        (leb limit.max_requests (length ts)) (λ _ e. refusal_no_room now limit ts e)
        (λ h _. ground (arith, h)))

-- A recorded request before the cleanup that each hundredth one makes.
abbrev recorded : ℕ → ℕ → String → Limiter → Limiter
recorded now v b s =
    let s₁ = set_quota v b (some (add_request now (quota_for v b s))) s in
    if is_global b then record s₁ { global_quota = add_request now s.global_quota } else s₁

times-recorded :
    (now u v : ℕ) (a b : String) (s : Limiter)
    → times u a (recorded now v b s)
      ≡ (if (u == v) && str_eq a b then times v b s ++ now ∷ [] else times u a s)
unfolding add_request
times-recorded now u v a b s =
    let q = add_request now (quota_for v b s) in
    let set = times-set_quota u v a b q s in
    let kept = times-quota_for v b s in
    if_ind
      (λ s'.
        times u a s' ≡ (if (u == v) && str_eq a b then times v b s ++ now ∷ [] else times u a s))
      (is_global b) (λ _. rw (← kept) set) (λ _. rw (← kept) set)

-- A recorded request is remembered; beside that a cleanup may have been made.
pub times-record_request :
    (now u v : ℕ) (a b : String) (limit : Limit) (s : Limiter)
    → default_limit a ≡ some limit
    → let ts = if (u == v) && str_eq a b then times v b s ++ now ∷ [] else times u a s in
      (times u a (record_request now v b s) ≡ ts)
      ⊎ (times u a (record_request now v b s) ≡ drop_old now limit.window_seconds ts)
unfolding record_request
times-record_request now u v a b limit s h =
    let kept = times-recorded now u v a b s in
    let ts = if (u == v) && str_eq a b then times v b s ++ now ∷ [] else times u a s in
    let n = length (add_request now (quota_for v b s)).timestamps in
    if_ind (λ s'. (times u a s' ≡ ts) ⊎ (times u a s' ≡ drop_old now limit.window_seconds ts))
      ((n % 100) == 0)
      (λ _. inr (rw (times-cleanup_old_data now u a limit (recorded now v b s) h, kept)))
      (λ _. inl kept)

pub same_quota : (u v : ℕ) (a b : String) → ((u == v) && str_eq a b) ≡ true → (u ≡ v) × (a ≡ b)
same_quota u v a b m = ground (arith, m, ==_iff u v, eq_iff a b)

abbrev pub is_allowed : Answer → Bool
is_allowed allowed = true
is_allowed _ = false

pub check_limit_known :
    (now u : ℕ) (a : String) (l : Limit) (s : Limiter)
    → default_limit a ≡ some l
    → check_limit now u a none s ≡ check_with now u a l s
unfolding check_limit
check_limit_known now u a l s e = rw (e, check_limit)

pub allowed_step :
    (now v : ℕ) (b : String) (s : Limiter)
    → (check_limit now v b none s).1 ≡ allowed
    → check_and_record now v b none s
      ≡ (record_request now v b (check_limit now v b none s).0, allowed)
unfolding check_and_record
allowed_step now v b s e = rw (e, check_and_record)

pub refused_step :
    (now v : ℕ) (b : String) (s : Limiter)
    → is_allowed (check_limit now v b none s).1 ≡ false
    → check_and_record now v b none s ≡ check_limit now v b none s
unfolding check_and_record
refused_step now v b s e = ground (arith, e)

pub Answer-cases : (x : Answer) → (x ≡ allowed) ⊎ (is_allowed x ≡ false)
Answer-cases allowed = inl refl
Answer-cases (refused _) = inr refl
Answer-cases index_error = inr refl
