-- ===== src/Ws/Delivery/Kicks.antt =====
-- app/services/ws/manager.py: `kick_local` and `close_all`, and what they leave in the indices.
use stream_sight_backend.Prelude.{
  ℕ, ◌≡◌, refl, Bool, true, false, List, [], ◌∷◌, arith, ◌==◌, All, length, Bool-cases, inl, inr,
}
use mathlib.Core.List.{map}
use stream_sight_backend.Sql.{select_where}
use stream_sight_backend.Sql.Laws.{All-delete_where, All-map}
use stream_sight_backend.Ws.Protocol.{CloseCode}
use stream_sight_backend.Ws.Manager.{
  Connection, Manager, close, unregister, teardown, close_and_teardown, connections_for_principal,
  total_connections,
}
use stream_sight_backend.Ws.Manager.Invariant.{
  IsIndexed, OfPrincipal, teardown-live, teardown-closed, teardown-IsIndexed, teardown-shuts,
}
use stream_sight_backend.Ws.Delivery.{close_each, kick_local, all_connections, close_all}

pub close-IsIndexed :
    (c : ℕ) (code : CloseCode) (m : Manager) → IsIndexed m → IsIndexed (close c code m)
unfolding close
close-IsIndexed c code m v = record {
  principals = v.principals;
  topics = v.topics;
  sids = v.sids;
  tabs = v.tabs;
}

-- a closed connection stays closed
teardown-keeps_closed :
    (c d : ℕ) (m : Manager) → (m.heap d).closed ≡ true → ((teardown c m).heap d).closed ≡ true
teardown-keeps_closed c d m shut = elim (Bool-cases (m.heap c).closed) [
  | inl e ↦ rw (teardown-closed c m e) shut
  | inr e ↦ rw (teardown-live c m e) (unfold unregister in ground (arith, shut))
]

-- a teardown only takes entries out of the index by principal
teardown-All :
    (P : ℕ × ℕ → Type 0) (c : ℕ) (m : Manager)
    → All P m.by_principal
    → All P (teardown c m).by_principal
teardown-All P c m h = elim (Bool-cases (m.heap c).closed) [
  | inl e ↦ rw (teardown-closed c m e) h
  | inr e ↦
      rw (teardown-live c m e)
        (unfold unregister in All-delete_where P P _ m.by_principal h (λ x o kept. o))
]

pub close_each-IsIndexed :
    (code : CloseCode) (cs : List ℕ) (m : Manager) → IsIndexed m → IsIndexed (close_each code cs m)
unfolding close_each close_and_teardown
close_each-IsIndexed code [] m v = v
close_each-IsIndexed code (c ∷ cs) m v =
    close_each-IsIndexed code cs (close_and_teardown code c m)
      (teardown-IsIndexed c (close c code m) (close-IsIndexed c code m v))

close_each-keeps_closed :
    (code : CloseCode) (cs : List ℕ) (d : ℕ) (m : Manager)
    → (m.heap d).closed ≡ true
    → ((close_each code cs m).heap d).closed ≡ true
unfolding close_each close_and_teardown close
close_each-keeps_closed code [] d m shut = shut
close_each-keeps_closed code (c ∷ cs) d m shut =
    close_each-keeps_closed code cs d (close_and_teardown code c m)
      (teardown-keeps_closed c d (close c code m) shut)

close_each-All :
    (P : ℕ × ℕ → Type 0) (code : CloseCode) (cs : List ℕ) (m : Manager)
    → All P m.by_principal
    → All P (close_each code cs m).by_principal
unfolding close_each close_and_teardown close
close_each-All P code [] m h = h
close_each-All P code (c ∷ cs) m h =
    close_each-All P code cs (close_and_teardown code c m) (teardown-All P c (close c code m) h)

-- each connection of the list is closed at the end
pub close_each-closes :
    (code : CloseCode) (cs : List ℕ) (m : Manager)
    → All (λ c. ((close_each code cs m).heap c).closed ≡ true) cs
unfolding close_each close_and_teardown
close_each-closes code [] m = tt
close_each-closes code (c ∷ cs) m =
    let next = close_and_teardown code c m in
    (
      close_each-keeps_closed code cs c next (teardown-shuts c (close c code m)),
      close_each-closes code cs next,
    )

module _ {K : Type 0} (q : K × ℕ → Bool) where
  -- what holds of the connections selected holds of the entries that select them
  selected-All :
      (P : ℕ → Type 0) (l : List (K × ℕ))
      → All P (map (λ e. e.1) (select_where q l))
      → All (λ e. q e ≡ true → P e.1) l
  unfolding select_where
  selected-All P [] h = tt
  selected-All P (e ∷ l) h = elim (Bool-cases (q e)) [
    | inl hit ↦
        let both : P e.1 × All P (map (λ e. e.1) (select_where q l)) = ground (arith, h, hit) in
        ((λ _. both.0), selected-All P l both.1)
    | inr miss ↦ ((λ hit. absurd (ground arith)), selected-All P l (ground (arith, h, miss)))
  ]

  unselected :
      (l : List (K × ℕ)) → All (λ e. q e ≡ false) l → map (λ e. e.1) (select_where q l) ≡ []
  unfolding select_where
  unselected [] h = refl
  unselected (e ∷ l) h = simp h.0 (unselected l h.1)

All-both : {A : Type 0} (P Q : A → Type 0) (l : List A) → All P l → All Q l → All (λ x. P x × Q x) l
All-both P Q [] h k = tt
All-both P Q (x ∷ l) h k = ((h.0, k.0), All-both P Q l h.1 k.1)

-- After a kick of a principal, from a manager whose indices are right, the indices are right, no
-- connection is registered for the principal, and each that was is closed.
pub kick_local_clears :
    (p : ℕ) (code : CloseCode) (m : Manager)
    → IsIndexed m
    → IsIndexed (kick_local p code m)
      × (connections_for_principal p (kick_local p code m) ≡ [])
      × All (λ c. ((kick_local p code m).heap c).closed ≡ true) (connections_for_principal p m)
unfolding kick_local connections_for_principal
kick_local_clears p code m v =
    let cs = connections_for_principal p m in
    let after = close_each code cs m in
    let kept = close_each-IsIndexed code cs m v in
    let shut = close_each-closes code cs m in
    let marked =
      selected-All (λ e. e.0 == p) (λ c. (after.heap c).closed ≡ true) m.by_principal shut in
    let unmatched =
      All-map _ (λ e. (e.0 == p) ≡ false) after.by_principal
        (All-both _ (OfPrincipal after.heap) after.by_principal
          (close_each-All (λ e. (e.0 == p) ≡ true → (after.heap e.1).closed ≡ true) code cs m
            marked)
          kept.principals)
        (λ e o. elim (Bool-cases (e.0 == p)) [
          | inl hit ↦ absurd (ground (arith, o.0 hit, o.1))
          | inr miss ↦ miss
        ]) in
    (kept, unselected (λ e. e.0 == p) after.by_principal unmatched, shut)

every-All : (P : ℕ → Type 0) (l : List (ℕ × ℕ)) → All P (map (λ e. e.1) l) → All (λ e. P e.1) l
every-All P [] h = tt
every-All P (e ∷ l) h = (h.0, every-All P l h.1)

none-remains :
    (h : ℕ → Connection) (l : List (ℕ × ℕ))
    → All (λ e. (h e.1).closed ≡ true) l
    → All (OfPrincipal h) l
    → length l ≡ 0
none-remains h [] shut v = refl
none-remains h (e ∷ l) shut v = absurd (ground (arith, shut.0, v.0))

-- After a shutdown, from a manager whose indices are right, the indices are right, no connection is
-- counted, and each that was registered is closed.
close_all-clears :
    (code : CloseCode) (m : Manager)
    → IsIndexed m
    → IsIndexed (close_all code m)
      × (total_connections (close_all code m) ≡ 0)
      × All (λ c. ((close_all code m).heap c).closed ≡ true) (all_connections m)
unfolding close_all total_connections
close_all-clears code m v =
    let cs = all_connections m in
    let after = close_each code cs m in
    let kept = close_each-IsIndexed code cs m v in
    let shut = close_each-closes code cs m in
    let marked =
      close_each-All (λ e. (after.heap e.1).closed ≡ true) code cs m
        (every-All (λ c. (after.heap c).closed ≡ true) m.by_principal shut) in
    (kept, none-remains after.heap after.by_principal marked kept.principals, shut)
