-- ===== src/RateLimit/Tests.antt =====
-- A run of the limiter on requests for statistics of two users, and the theorems at it.
use nexus_arc.Base.{ℕ, ◌≡◌, refl, List, [], ◌∷◌, none, arith}
use nexus_arc.RateLimit.{
  Limiter, empty_quota, limit_of, default_limit, check_and_record, check_limit, check_with,
  count_recent, cleanup_old, drop_old, quota_for, set_quota, refusal, record_request, add_request,
  cleanup_old_data, clean_quota,
}
use nexus_arc.RateLimit.Exact.{window_history, history-window_history}
use nexus_arc.RateLimit.Window.{Request, InOrder, WithinLimit, history, history-WithinLimit}

no_requests : Limiter
no_requests = record { user_quotas = λ u a. none; global_quota = empty_quota 0 }

request : ℕ → ℕ → Request
request now user = record { now = now; user = user; action = "stats" }

requests : List Request
requests = request 1 7 ∷ request 2 7 ∷ request 3 8 ∷ request 4 7 ∷ request 30 7 ∷ request 62 7 ∷ []

program : Unit {0}
unfolding history default_limit check_and_record check_limit check_with count_recent cleanup_old
    drop_old quota_for set_quota refusal record_request add_request cleanup_old_data clean_quota
    no_requests request requests
program = tt

history-requests : history 7 "stats" requests no_requests [] ≡ 62 ∷ 4 ∷ 2 ∷ 1 ∷ []
unfolding program
history-requests = refl

requests-InOrder : InOrder 0 requests
unfolding program
requests-InOrder =
    (omega arith, (omega arith, (omega arith, (omega arith, (omega arith, (omega arith, tt))))))

history-WithinLimit_example : WithinLimit 60 3 (history 7 "stats" requests no_requests [])
unfolding program
history-WithinLimit_example =
    history-WithinLimit 7 "stats" (limit_of 3 60 "3 stats requests/minute") no_requests requests
      refl refl requests-InOrder

history-window_history_example :
    history 7 "stats" requests no_requests []
    ≡ window_history 7 "stats" (limit_of 3 60 "3 stats requests/minute") requests []
unfolding program
history-window_history_example =
    history-window_history 7 "stats" (limit_of 3 60 "3 stats requests/minute") no_requests requests
      refl refl requests-InOrder
