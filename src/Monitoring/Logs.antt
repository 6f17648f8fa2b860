-- ===== src/Monitoring/Logs.antt =====
-- app/services/monitoring/logs.py: `LogQueryService.query`. Python's `int` on a text is a parameter,
-- `none` where it raises.
pub mod Loop
pub mod Walk
pub mod Complete
use stream_sight_backend.Prelude.{
  ℕ, ◌-◌, ◌*◌, min, Bool, true, false, not, ◌&&◌, ◌||◌, Option, none, some, List, [], ◌∷◌, String,
  str_eq, leb, if◌then◌else◌, is_some,
}
use stream_sight_backend.Monitoring.Stream.{
  StreamId, Fields, Entry, Start, End, Item, StorePage, query,
}

-- LogEntry
pub record LogEntry : Type 0 where
  pub ts : ℕ
  pub level : String
  pub logger : String
  pub message : String
  pub request_id : Option String
  pub module_name : Option String
  pub func : Option String
  pub line : Option ℕ

-- Page[LogEntry]
pub record LogPage : Type 0 where
  pub items : List LogEntry
  pub next_cursor : Option StreamId

-- the arguments that filter
pub record LogFilter : Type 0 where
  pub level : Option String
  pub request_id : Option String
  pub logger : Option String

abbrev pub is_equal_to : Option String → String → Bool
is_equal_to none s = false
is_equal_to (some t) s = str_eq t s

-- `not (wanted and raw_item.get(key) != wanted)`
abbrev pub is_wanted : Option String → Option String → Bool
is_wanted none v = true
is_wanted (some s) v = str_eq s "" || is_equal_to v s

unfoldable pub accepts : LogFilter → Item → Bool
accepts f i =
    is_wanted f.level (i.get "level")
    && is_wanted f.request_id (i.get "request_id")
    && is_wanted f.logger (i.get "logger")

abbrev pub or_empty : Option String → String
or_empty none = ""
or_empty (some s) = s

-- `x or None`
abbrev pub or_none : Option String → Option String
or_none none = none
or_none (some s) = if str_eq s "" then none else some s

-- `int(raw_item.get("ts", 0))`
abbrev pub int_or_zero : (String → Option ℕ) → Option String → Option ℕ
int_or_zero int none = some 0
int_or_zero int (some s) = int s

abbrev pub just : Option ℕ → Option (Option ℕ)
just none = none
just (some n) = some (some n)

-- `int(raw_item["line"]) if raw_item.get("line") else None`
abbrev pub int_or_none : (String → Option ℕ) → Option String → Option (Option ℕ)
int_or_none int none = some none
int_or_none int (some s) = if str_eq s "" then some none else just (int s)

abbrev pub with_numbers : Fields → Option ℕ → Option (Option ℕ) → Option LogEntry
with_numbers get none line = none
with_numbers get (some ts) none = none
with_numbers get (some ts) (some line) = some (record {
  ts = ts;
  level = or_empty (get "level");
  logger = or_empty (get "logger");
  message = or_empty (get "message");
  request_id = or_none (get "request_id");
  module_name = or_none (get "module");
  func = or_none (get "func");
  line = line;
})

-- the LogEntry of an item, `none` where `int` raises
unfoldable pub log_entry : (String → Option ℕ) → Item → Option LogEntry
log_entry int i = with_numbers i.get (int_or_zero int (i.get "ts")) (int_or_none int (i.get "line"))

-- what the loop ends with: the entries, and the id of the last accepted one where it was cut
pub record Collected : Type 0 where
  pub entries : List LogEntry
  pub cut_at : Option StreamId

abbrev pub cons_entry : Option LogEntry → Option Collected → Option Collected
cons_entry none rest = none
cons_entry (some e) none = none
cons_entry (some e) (some c) = some (record c { entries = e ∷ c.entries })

abbrev pub cut_entry : Option LogEntry → StreamId → Option Collected
cut_entry none k = none
cut_entry (some e) k = some (record { entries = e ∷ []; cut_at = some k })

-- the loop, with the number of entries that are still wanted
unfoldable pub collect : (String → Option ℕ) → LogFilter → ℕ → List Item → Option Collected
collect int f n [] = some (record { entries = []; cut_at = none })
collect int f n (i ∷ is) =
    let more = cons_entry (log_entry int i) (collect int f (n - 1) is) in
    let skipped = collect int f n is in
    if accepts f i then if leb n 1 then cut_entry (log_entry int i) i._id else more else skipped

-- the cursor of the next page
abbrev pub next_of : Option StreamId → Option StreamId → Option StreamId
next_of (some k) c = some k
next_of none c = c

abbrev pub finish : StorePage → Option Collected → Option LogPage
finish p none = none
finish p (some c) =
    some (record { items = c.entries; next_cursor = next_of c.cut_at p.next_cursor })

-- `query`, `none` where it raises
unfoldable pub query_logs :
    (String → Option ℕ)
    → (Start → End → ℕ → List Entry)
    → LogFilter
    → Option ℕ
    → Option ℕ
    → Option StreamId
    → ℕ
    → Option LogPage
query_logs int xrange f since until cursor limit =
    let p = query xrange since until cursor (min (limit * 4) 2000) in
    finish p (collect int f limit p.items)
