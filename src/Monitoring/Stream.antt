-- ===== src/Monitoring/Stream.antt =====
-- app/services/monitoring/store.py: `RedisStreamStore.query`. The client's XRANGE is a parameter.
use stream_sight_backend.Prelude.{
  ℕ, suc, Bool, ◌&&◌, ◌||◌, Option, none, some, List, [], ◌∷◌, String, ltb, ◌==◌, length, take,
  if◌then◌else◌,
}

-- `<ms>-<seq>`
pub record StreamId : Type 0 where
  pub ms : ℕ
  pub seq : ℕ

abbrev pub id_less : StreamId → StreamId → Bool
id_less a b = ltb a.ms b.ms || (a.ms == b.ms && ltb a.seq b.seq)

-- a dict of texts, by its `get`
abbrev pub Fields : Type 0
Fields = String → Option String

pub record Entry : Type 0 where
  pub id : StreamId
  pub fields : Option Fields

-- `-`, `<ms>-0` and `(<id>`
pub data Start : Type 0 where
  oldest : Start
  from_ms : ℕ → Start
  after : StreamId → Start

-- `+` and `<ms>-9999999`
pub data End : Type 0 where
  newest : End
  until_ms : ℕ → End

-- an item of a page: the dict, with its `_id`
pub record Item : Type 0 where
  pub _id : StreamId
  pub get : Fields

pub record StorePage : Type 0 where
  pub items : List Item
  pub next_cursor : Option StreamId

unfoldable pub start_of : Option ℕ → Option StreamId → Start
start_of since (some cursor) = after cursor
start_of (some ms) none = from_ms ms
start_of none none = oldest

unfoldable pub end_of : Option ℕ → End
end_of none = newest
end_of (some ms) = until_ms ms

abbrev pub with_fields : Entry → Option Fields → List Item → List Item
with_fields e none items = items
with_fields e (some f) items = record { _id = e.id; get = f } ∷ items

-- the loop over the raw entries
unfoldable pub items_of : List Entry → List Item
items_of [] = []
items_of (e ∷ es) = with_fields e e.fields (items_of es)

abbrev pub last_id : Option StreamId → List Item → Option StreamId
last_id d [] = d
last_id d (i ∷ is) = last_id (some i._id) is

unfoldable pub page_of : ℕ → List Entry → StorePage
page_of limit raw =
    let items = items_of (take limit raw) in
    record {
      items = items;
      next_cursor = if ltb limit (length raw) then last_id none items else none;
    }

-- `query`, on what XRANGE gives for a start, an end and a count
unfoldable pub query :
    (Start → End → ℕ → List Entry) → Option ℕ → Option ℕ → Option StreamId → ℕ → StorePage
unfolding start_of end_of page_of
query xrange since until cursor limit =
    page_of limit (xrange (start_of since cursor) (end_of until) (suc limit))
