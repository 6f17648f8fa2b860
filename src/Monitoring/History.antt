-- ===== src/Monitoring/History.antt =====
-- app/api/routers/monitoring/router.py: the routes, with the range checks of the two histories. A
-- time is in milliseconds; the start of a range may lie before the epoch.
use stream_sight_backend.Prelude.{
  ℕ, ◌+◌, ◌-◌, ◌*◌, ◌≤◌, ◌<◌, ◌≡◌, min, Bool, false, Option, none, some, List, String, arith, ltb,
  leb, if◌then◌else◌,
}
use stream_sight_backend.Accounts.Enums.{super_admin}
use stream_sight_backend.Accounts.Errors.{ok, err, bad_request, service_unavailable, value_error}
use stream_sight_backend.Accounts.World.{Env, World, Action, pure, raise, raise_if, ◌>>=◌, ◌>>◌}
use stream_sight_backend.Auth.Access.{get_admin_from_token, require_min_admin_role}
use stream_sight_backend.Monitoring.Stream.{StreamId, Entry, Start, End}
use stream_sight_backend.Monitoring.Logs.{LogFilter, LogPage, query_logs}

-- a time at or after the epoch, or so much before it
pub data Time : Type 0 where
  at before : ℕ → Time

-- monitoring_infra_default_query_hours and the retention of the kind, both in hours
pub record Hours : Type 0 where
  pub default_hours : ℕ
  pub retention_hours : ℕ

abbrev pub hour_ms : ℕ
hour_ms = 3600000

-- `resolved_end - default_ms`
abbrev pub minus : ℕ → ℕ → Time
minus end_ms d = if leb d end_ms then at (end_ms - d) else before (d - end_ms)

abbrev pub resolved_start : Hours → Option ℕ → ℕ → Time
resolved_start h (some start) end_ms = at start
resolved_start h none end_ms = minus end_ms (h.default_hours * hour_ms)

abbrev pub resolved_end : ℕ → Option ℕ → ℕ
resolved_end now none = now
resolved_end now (some end_ms) = end_ms

-- `resolved_start >= resolved_end`
abbrev pub is_empty_range : Time → ℕ → Bool
is_empty_range (at s) end_ms = leb end_ms s
is_empty_range (before k) end_ms = false

-- `resolved_end - resolved_start > retention_ms`, for a start before the end
abbrev pub is_too_long : Time → ℕ → ℕ → Bool
is_too_long (at s) end_ms retention = ltb retention (end_ms - s)
is_too_long (before k) end_ms retention = ltb retention (end_ms + k)

abbrev pub or_unavailable {ℓ} : {A : Type ℓ} → Option A → Action A
or_unavailable none = raise (service_unavailable "Redis unavailable")
or_unavailable (some a) = pure a

-- `get_db_history` and `get_infra`: ZRANGEBYSCORE is a parameter, `none` where Redis fails
unfoldable pub history_range {ℓ} :
    {A : Type ℓ} → Hours → ℕ → Option ℕ → Option ℕ → (Time → ℕ → Option (List A)) → Action (List A)
history_range h now start_ms end_ms zrangebyscore = do
  let until = resolved_end now end_ms
  let from = resolved_start h start_ms until
  raise_if (is_empty_range from until) (bad_request "start_ms must be less than end_ms")
  raise_if (is_too_long from until (h.retention_hours * hour_ms))
      (bad_request "Query range exceeds retention window")
  or_unavailable (zrangebyscore from until)

unfoldable pub history_route {ℓ} :
    {A : Type ℓ}
    → Env
    → String
    → Hours
    → ℕ
    → Option ℕ
    → Option ℕ
    → (Time → ℕ → Option (List A))
    → Action (List A)
history_route env token h now start_ms end_ms zrangebyscore = do
  a ← get_admin_from_token env token
  history_range h now start_ms end_ms zrangebyscore

abbrev pub or_value_error : Option LogPage → Action LogPage
or_value_error none = raise value_error
or_value_error (some p) = pure p

-- `get_logs`, with monitoring_query_max_limit
unfoldable pub logs_route :
    Env
    → String
    → (String → Option ℕ)
    → (Start → End → ℕ → List Entry)
    → ℕ
    → LogFilter
    → Option ℕ
    → Option ℕ
    → Option StreamId
    → ℕ
    → Action LogPage
logs_route env token int xrange max_limit f since until cursor limit = do
  a ← require_min_admin_role super_admin env token
  or_value_error (query_logs int xrange f since until cursor (min limit max_limit))

-- A history that names its start is read if the start is before the end and the two are no further
-- apart than the retention; otherwise the answer is a 400 and Redis is not asked.
history_range_of_start {ℓ} :
    {A : Type ℓ} (h : Hours) (now s e : ℕ) (z : Time → ℕ → Option (List A)) (rows : List A)
    (w : World)
    → z (at s) e ≡ some rows
    → (s < e
        → e ≤ s + h.retention_hours * hour_ms
        → history_range h now (some s) (some e) z w ≡ (ok rows, w))
      × (e ≤ s
          → history_range h now (some s) (some e) z w
            ≡ (err (bad_request "start_ms must be less than end_ms"), w))
      × (s + h.retention_hours * hour_ms < e
          → history_range h now (some s) (some e) z w
            ≡ (err (bad_request "Query range exceeds retention window"), w))
unfolding history_range
history_range_of_start h now s e z rows w k =
    (λ a b. ground (arith, a, b, k), λ a. ground (arith, a), λ a. ground (arith, a))
