-- ===== src/Ws/Manager/Tabs.antt =====
-- app/services/ws/manager.py: the registration of a tab, the pair of a session's id and a tab's id.
use stream_sight_backend.Prelude.{
  ℕ, ◌≡◌, refl, Bool, true, false, none, some, List, [], ◌∷◌, String, arith, eq_refl, ◌==◌,
}
use stream_sight_backend.Sql.{find_where, count_where, delete_where}
use stream_sight_backend.Sql.Laws.{count_where-append, find_where-append_none}
use stream_sight_backend.Ws.Protocol.{replaced}
use stream_sight_backend.Ws.Manager.{
  Manager, close, is_tab, replace, set_tab, claim_tab, register, close_and_teardown,
}
use stream_sight_backend.Ws.Manager.Invariant.{IsIndexed, teardown-shuts}
use stream_sight_backend.Ws.Manager.Keeps.{register-IsIndexed}

module _ {A : Type 0} (q : A → Bool) where
  count_where-delete_where : (l : List A) → count_where q (delete_where q l) ≡ 0
  unfolding count_where delete_where
  count_where-delete_where [] = refl
  count_where-delete_where (x ∷ l) = ground (arith, count_where-delete_where l)

  find_where-delete_where : (l : List A) → find_where q (delete_where q l) ≡ none
  unfolding find_where delete_where
  find_where-delete_where [] = refl
  find_where-delete_where (x ∷ l) = ground (arith, find_where-delete_where l)

is_tab_self : (s d : String) (c : ℕ) → is_tab s d (s, d, c) ≡ true
is_tab_self s d c = ground (arith, eq_refl s, eq_refl d)

set_tab-count :
    (s d : String) (c : ℕ) (m : Manager) → count_where (is_tab s d) (set_tab s d c m).by_sid_cid ≡ 1
unfolding count_where
set_tab-count s d c m = rw (
  count_where-append (is_tab s d) (delete_where (is_tab s d) m.by_sid_cid) ((s, d, c) ∷ []),
  count_where-delete_where (is_tab s d) m.by_sid_cid,
  is_tab_self s d c,
)

set_tab-find :
    (s d : String) (c : ℕ) (m : Manager)
    → find_where (is_tab s d) (set_tab s d c m).by_sid_cid ≡ some (s, d, c)
unfolding find_where
set_tab-find s d c m = rw (
  find_where-append_none (is_tab s d) (delete_where (is_tab s d) m.by_sid_cid) ((s, d, c) ∷ [])
      (find_where-delete_where (is_tab s d) m.by_sid_cid),
  is_tab_self s d c,
)

replace-shuts :
    (s d : String) (old c : ℕ) (m : Manager)
    → (old == c) ≡ false
    → ((replace (some (s, d, old)) c m).heap old).closed ≡ true
unfolding replace close_and_teardown
replace-shuts s d old c m other = rw other (teardown-shuts old (close old replaced m))

-- When an open connection of a tab is registered where another one of that tab stands, and the
-- indices are right, the other one is closed, the tab is mapped to the new one and only to it, and
-- the indices are right.
pub register_replaces :
    (s d : String) (old c : ℕ) (m : Manager)
    → IsIndexed m
    → (m.heap c).closed ≡ false
    → (m.heap c).sid ≡ some s
    → (m.heap c).cid ≡ some d
    → find_where (is_tab s d) m.by_sid_cid ≡ some (s, d, old)
    → (old == c) ≡ false
    → (((register c m).heap old).closed ≡ true)
      × (find_where (is_tab s d) (register c m).by_sid_cid ≡ some (s, d, c))
      × (count_where (is_tab s d) (register c m).by_sid_cid ≡ 1)
      × IsIndexed (register c m)
unfolding register claim_tab
register_replaces s d old c m v live e f found other =
    let next = replace (some (s, d, old)) c m in
    (
      rw (e, f, found) (replace-shuts s d old c m other),
      rw (e, f, found) (set_tab-find s d c next),
      rw (e, f, found) (set_tab-count s d c next),
      register-IsIndexed c m live v,
    )
