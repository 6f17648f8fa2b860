-- ===== src/Realtime/History.antt =====
-- app/services/realtime/history.py, `list` of app/repositories/repo_realtime_reading.py and the
-- route GET /realtime/history.
use stream_sight_backend.Prelude.{
  ℕ, ◌≤◌, ◌<◌, ◌≡◌, Bool, true, false, ◌&&◌, List, String, arith, leb, ltb, length, take, All,
  if◌then◌else◌,
}
use stream_sight_backend.Prelude.Slices.{length-take_le}
use stream_sight_backend.Sql.{select_where}
use stream_sight_backend.Sql.Laws.{select_where-All}
use stream_sight_backend.Accounts.Enums.{viewer}
use stream_sight_backend.Accounts.Errors.{ok, err, bad_request, type_error}
use stream_sight_backend.Accounts.World.{Env, Action, World, pure, raise, ◌>>=◌}
use stream_sight_backend.Auth.Access.{require_min_admin_role}
use stream_sight_backend.Records.Repository.{order_by}
use stream_sight_backend.Records.Repository.Listing.{IsSorted, order_by-IsSorted, IsSorted-take}
use stream_sight_backend.Records.Repository.Selection.{All-take, All-order_by}
use stream_sight_backend.Realtime.Streamer.{Reading}

-- a datetime of a query: without a zone, or with one, as its time in UTC
pub data Moment : Type 0 where
  naive aware : ℕ → Moment

abbrev pub is_in : ℕ → ℕ → Reading → Bool
is_in from to r = leb from r.ts && ltb r.ts to

abbrev pub earlier : Reading → Reading → Bool
earlier a b = leb a.ts b.ts

-- `list` of the repository
unfoldable pub list_readings : ℕ → ℕ → ℕ → List Reading → List Reading
list_readings from to size table = take size (order_by earlier (select_where (is_in from to) table))

abbrev pub checked : ℕ → ℕ → ℕ → List Reading → Action (List Reading)
checked from to size table =
    if leb to from
    then raise (bad_request "'from' must be before 'to'")
    else pure (list_readings from to size table)

-- `list_history`: Python does not compare a datetime with a zone to one without
unfoldable pub list_history : Moment → Moment → ℕ → List Reading → Action (List Reading)
list_history (naive from) (naive to) size table = checked from to size table
list_history (aware from) (aware to) size table = checked from to size table
list_history (naive from) (aware to) size table = raise type_error
list_history (aware from) (naive to) size table = raise type_error

-- GET /realtime/history
unfoldable pub history_route :
    Env → String → Moment → Moment → ℕ → List Reading → Action (List Reading)
history_route env token from to size table = do
  a ← require_min_admin_role viewer env token
  list_history from to size table

earlier_total : (a b : Reading) → earlier a b ≡ false → earlier b a ≡ true
earlier_total a b h = ground (arith, h)

-- The history between two moments without a zone, the first before the second, is answered and
-- nothing changes: at most `size` readings, each from the first moment on and before the second,
-- the earlier before the later. When the first is not before the second, the answer is a 400.
list_history_answers :
    (from to size : ℕ) (table : List Reading) (w : World)
    → (from < to
        → (rows : List Reading) × (list_history (naive from) (naive to) size table w ≡ (ok rows, w))
          × (length rows ≤ size)
          × All (λ r. is_in from to r ≡ true) rows
          × IsSorted earlier rows)
      × (to ≤ from
          → list_history (naive from) (naive to) size table w
            ≡ (err (bad_request "'from' must be before 'to'"), w))
unfolding list_history list_readings
list_history_answers from to size table w =
    let l = select_where (is_in from to) table in
    (
      λ h. (
        list_readings from to size table,
        ground (arith, h),
        length-take_le size (order_by earlier l),
        All-take (λ r. is_in from to r ≡ true) size (order_by earlier l)
            (All-order_by (λ r. is_in from to r ≡ true) earlier l
              (select_where-All (is_in from to) table)),
        IsSorted-take earlier size (order_by earlier l) (order_by-IsSorted earlier earlier_total l),
      ),
      λ h. ground (arith, h),
    )
