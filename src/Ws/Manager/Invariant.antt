-- ===== src/Ws/Manager/Invariant.antt =====
-- app/services/ws/manager.py: the invariant of the indices, and `_teardown`.
use stream_sight_backend.Prelude.{
  ℕ, ◌≡◌, refl, true, false, ◌&&◌, Option, none, some, List, [], ◌∷◌, ◌++◌, String, arith, ap,
  eq_refl, ◌==◌, ==_refl, All, Bool-cases, inl, inr,
}
use stream_sight_backend.Sql.{exists_where, delete_where}
use stream_sight_backend.Sql.Laws.{All-delete_where, All-map, All-exists_where}
use stream_sight_backend.Ws.Protocol.{normal}
use stream_sight_backend.Ws.Manager.{
  Connection, Manager, mem_text, close, unregister, mark_closed, teardown, drop_sid, drop_tab,
}

abbrev pub OfPrincipal : (ℕ → Connection) → ℕ × ℕ → Type 0
OfPrincipal h e = ((h e.1).principal_id ≡ e.0) × ((h e.1).closed ≡ false)

abbrev pub OfTopic : (ℕ → Connection) → String × ℕ → Type 0
OfTopic h e = (mem_text e.0 (h e.1).subscriptions ≡ true) × ((h e.1).closed ≡ false)

abbrev pub OfSid : (ℕ → Connection) → String × ℕ → Type 0
OfSid h e = ((h e.1).sid ≡ some e.0) × ((h e.1).closed ≡ false)

abbrev pub OfTab : (ℕ → Connection) → String × String × ℕ → Type 0
OfTab h e = ((h e.2).sid ≡ some e.0) × ((h e.2).cid ≡ some e.1) × ((h e.2).closed ≡ false)

pub record IsIndexed (m : Manager) : Type 0 where
  pub principals : All (OfPrincipal m.heap) m.by_principal
  pub topics : All (OfTopic m.heap) m.by_topic
  pub sids : All (OfSid m.heap) m.by_sid
  pub tabs : All (OfTab m.heap) m.by_sid_cid

-- No index names the connection.
pub record IsForgotten (c : ℕ) (m : Manager) : Type 0 where
  pub no_principal : exists_where (λ (e : ℕ × ℕ). e.1 == c) m.by_principal ≡ false
  pub no_topic : exists_where (λ (e : String × ℕ). e.1 == c) m.by_topic ≡ false
  pub no_sid : exists_where (λ (e : String × ℕ). e.1 == c) m.by_sid ≡ false
  pub no_tab : exists_where (λ (e : String × String × ℕ). e.2 == c) m.by_sid_cid ≡ false

-- A closed connection is in no index of a manager that keeps the invariant.
pub closed-IsForgotten :
    (c : ℕ) (m : Manager) → IsIndexed m → (m.heap c).closed ≡ true → IsForgotten c m
closed-IsForgotten c m v shut = record {
  no_principal =
      All-exists_where (OfPrincipal m.heap) (λ e. e.1 == c) m.by_principal v.principals
        (λ e h. ground arith);
  no_topic =
      All-exists_where (OfTopic m.heap) (λ e. e.1 == c) m.by_topic v.topics (λ e h. ground arith);
  no_sid = All-exists_where (OfSid m.heap) (λ e. e.1 == c) m.by_sid v.sids (λ e h. ground arith);
  no_tab =
      All-exists_where (OfTab m.heap) (λ e. e.2 == c) m.by_sid_cid v.tabs (λ e h. ground arith);
}

-- The two heaps agree but at `c`.
abbrev pub AgreesBut : ℕ → (ℕ → Connection) → (ℕ → Connection) → Type 0
AgreesBut c h h' = (d : ℕ) → (d == c) ≡ false → h' d ≡ h d

module _ (h h' : ℕ → Connection) (c : ℕ) (agrees : AgreesBut c h h') where
  principals-drop :
      (l : List (ℕ × ℕ))
      → All (OfPrincipal h) l
      → All (OfPrincipal h') (delete_where (λ e. e.0 == (h c).principal_id && e.1 == c) l)
  principals-drop l v =
      All-delete_where (OfPrincipal h) (OfPrincipal h') _ l v
        (λ e o kept. ground (arith, agrees e.1))

  topics-drop :
      (l : List (String × ℕ))
      → All (OfTopic h) l
      → All (OfTopic h') (delete_where (λ e. mem_text e.0 (h c).subscriptions && e.1 == c) l)
  topics-drop l v =
      All-delete_where (OfTopic h) (OfTopic h') _ l v (λ e o kept. ground (arith, agrees e.1))

  sids-drop :
      (s : Option String) (l : List (String × ℕ))
      → (h c).sid ≡ s
      → All (OfSid h) l
      → All (OfSid h') (drop_sid s c l)
  sids-drop none l e v = All-map (OfSid h) (OfSid h') l v (λ x o. ground (arith, agrees x.1))
  sids-drop (some s) l e v =
      All-delete_where (OfSid h) (OfSid h') _ l v
        (λ x o kept. ground (arith, agrees x.1, eq_refl x.0, eq_refl s))

  tabs-drop :
      (s d : Option String) (l : List (String × String × ℕ))
      → (h c).sid ≡ s
      → (h c).cid ≡ d
      → All (OfTab h) l
      → All (OfTab h') (drop_tab s d c l)
  tabs-drop none d l e f v = All-map (OfTab h) (OfTab h') l v (λ x o. ground (arith, agrees x.2))
  tabs-drop (some s) none l e f v =
      All-map (OfTab h) (OfTab h') l v (λ x o. ground (arith, agrees x.2))
  tabs-drop (some s) (some d) l e f v =
      All-delete_where (OfTab h) (OfTab h') _ l v
        (λ x o kept. ground (arith, agrees x.2, eq_refl s, eq_refl d))

-- What `unregister` reads of a connection is not touched by marking it closed.
unregister-mark_closed :
    (c : ℕ) (m : Manager)
    → unregister c (mark_closed c m) ≡ record (unregister c m) { heap = (mark_closed c m).heap }
unfolding unregister
unregister-mark_closed c m = rw (==_refl c)

-- the connection marked, and out of every index
abbrev pub torn : ℕ → Manager → Manager
torn c m = record (unregister c m) {
  heap = (mark_closed c m).heap;
  closes = m.closes ++ (c, normal) ∷ [];
}

pub teardown-live : (c : ℕ) (m : Manager) → (m.heap c).closed ≡ false → teardown c m ≡ torn c m
unfolding teardown close
teardown-live c m live = simp live (
    ap (λ (n : Manager). record n { closes = n.closes ++ (c, normal) ∷ [] })
      (unregister-mark_closed c m))

pub teardown-closed : (c : ℕ) (m : Manager) → (m.heap c).closed ≡ true → teardown c m ≡ m
unfolding teardown
teardown-closed c m shut = simp shut

torn-IsIndexed : (c : ℕ) (m : Manager) → IsIndexed m → IsIndexed (torn c m)
unfolding unregister
torn-IsIndexed c m v =
    let h' = (mark_closed c m).heap in
    let agrees : AgreesBut c m.heap h' = λ d ne. ground arith in
    record {
      principals = principals-drop m.heap h' c agrees m.by_principal v.principals;
      topics = topics-drop m.heap h' c agrees m.by_topic v.topics;
      sids = sids-drop m.heap h' c agrees (m.heap c).sid m.by_sid refl v.sids;
      tabs =
          tabs-drop m.heap h' c agrees (m.heap c).sid (m.heap c).cid m.by_sid_cid refl refl v.tabs;
    }

-- Tearing a connection down keeps the invariant.
pub teardown-IsIndexed : (c : ℕ) (m : Manager) → IsIndexed m → IsIndexed (teardown c m)
teardown-IsIndexed c m v = elim (Bool-cases (m.heap c).closed) [
  | inl shut ↦ rw (teardown-closed c m shut) v
  | inr live ↦ rw (teardown-live c m live) (torn-IsIndexed c m v)
]

pub teardown-shuts : (c : ℕ) (m : Manager) → ((teardown c m).heap c).closed ≡ true
teardown-shuts c m = elim (Bool-cases (m.heap c).closed) [
  | inl shut ↦ rw (teardown-closed c m shut) shut
  | inr live ↦ rw (teardown-live c m live) (unfold unregister in rw (==_refl c))
]

-- A teardown leaves the connection closed and in no index, keeps the invariant for the others, and
-- a second teardown of the same connection does nothing.
teardown_forgets :
    (c : ℕ) (m : Manager)
    → IsIndexed m
    → (((teardown c m).heap c).closed ≡ true)
      × IsForgotten c (teardown c m)
      × IsIndexed (teardown c m)
      × (teardown c (teardown c m) ≡ teardown c m)
teardown_forgets c m v =
    let shut = teardown-shuts c m in
    let kept = teardown-IsIndexed c m v in
    (
      shut,
      closed-IsForgotten c (teardown c m) kept shut,
      kept,
      teardown-closed c (teardown c m) shut,
    )
