-- ===== src/Ws/Manager/Keeps.antt =====
-- app/services/ws/manager.py: registration, subscriptions and the invariant of the indices.
use stream_sight_backend.Prelude.{
  ℕ, ◌≡◌, refl, Bool, true, false, ◌&&◌, Option, none, some, List, [], ◌∷◌, String, arith, str_eq,
  eq_iff, eq_refl, ◌==◌, if◌then◌else◌, All, Bool-cases, inl, inr,
}
use stream_sight_backend.Sql.{find_where, exists_where}
use stream_sight_backend.Sql.Laws.{All-delete_where, All-map, All-append_one}
use stream_sight_backend.Ws.Protocol.{CloseCode, replaced}
use stream_sight_backend.Ws.Manager.{
  Connection, Manager, mem_text, without_text, close, unregister, teardown, close_and_teardown,
  add_pair, replace, set_tab, claim_tab, add_sid, add_indices, register, subscribe, unsubscribe,
  is_tab,
}
use stream_sight_backend.Ws.Manager.Invariant.{
  IsIndexed, OfPrincipal, OfTopic, OfSid, OfTab, teardown-live, teardown-closed, teardown-IsIndexed,
}

close-IsIndexed' :
    (c : ℕ) (code : CloseCode) (m : Manager) → IsIndexed m → IsIndexed (close c code m)
unfolding close
close-IsIndexed' c code m v = record {
  principals = v.principals;
  topics = v.topics;
  sids = v.sids;
  tabs = v.tabs;
}

teardown-other : (c d : ℕ) (m : Manager) → (c == d) ≡ false → (teardown c m).heap d ≡ m.heap d
teardown-other c d m ne = elim (Bool-cases (m.heap c).closed) [
  | inl e ↦ rw (teardown-closed c m e) refl
  | inr e ↦ rw (teardown-live c m e) (unfold unregister in rw ne)
]

replace-heap :
    (e : Option (String × String × ℕ)) (c : ℕ) (m : Manager) → (replace e c m).heap c ≡ m.heap c
unfolding replace
replace-heap none c m = refl
replace-heap (some e) c m = elim (Bool-cases (e.2 == c)) [
  | inl same ↦ rw same
  | inr other ↦
      rw other
        (unfold close_and_teardown close in teardown-other e.2 c (close e.2 replaced m) other)
]

replace-IsIndexed :
    (e : Option (String × String × ℕ)) (c : ℕ) (m : Manager)
    → IsIndexed m
    → IsIndexed (replace e c m)
unfolding replace
replace-IsIndexed none c m v = v
replace-IsIndexed (some e) c m v = elim (Bool-cases (e.2 == c)) [
  | inl same ↦ rw same v
  | inr other ↦ rw other (
      unfold close_and_teardown in
      teardown-IsIndexed e.2 (close e.2 replaced m) (close-IsIndexed' e.2 replaced m v))
]

claim_tab-heap : (s d : Option String) (c : ℕ) (m : Manager) → (claim_tab s d c m).heap c ≡ m.heap c
unfolding claim_tab
claim_tab-heap none d c m = refl
claim_tab-heap (some s) none c m = refl
claim_tab-heap (some s) (some d) c m = replace-heap (find_where (is_tab s d) m.by_sid_cid) c m

set_tab-IsIndexed :
    (s d : String) (c : ℕ) (m : Manager)
    → (m.heap c).closed ≡ false
    → (m.heap c).sid ≡ some s
    → (m.heap c).cid ≡ some d
    → IsIndexed m
    → IsIndexed (set_tab s d c m)
set_tab-IsIndexed s d c m live e f v = record {
  principals = v.principals;
  topics = v.topics;
  sids = v.sids;
  tabs =
      All-append_one (OfTab m.heap) _ (s, d, c)
        (All-delete_where (OfTab m.heap) (OfTab m.heap) _ m.by_sid_cid v.tabs (λ x o kept. o))
        (e, f, live);
}

claim_tab-IsIndexed :
    (s d : Option String) (c : ℕ) (m : Manager)
    → (m.heap c).closed ≡ false
    → (m.heap c).sid ≡ s
    → (m.heap c).cid ≡ d
    → IsIndexed m
    → IsIndexed (claim_tab s d c m)
unfolding claim_tab
claim_tab-IsIndexed none d c m live e f v = v
claim_tab-IsIndexed (some s) none c m live e f v = v
claim_tab-IsIndexed (some s) (some d) c m live e f v =
    let old = find_where (is_tab s d) m.by_sid_cid in
    let same = replace-heap old c m in
    set_tab-IsIndexed s d c (replace old c m) (rw same live) (rw same e) (rw same f)
      (replace-IsIndexed old c m v)

add_pair-All :
    {K : Type 0} (P : K × ℕ → Type 0) (eq : K → K → Bool) (k : K) (c : ℕ) (l : List (K × ℕ))
    → All P l
    → P (k, c)
    → All P (add_pair eq k c l)
add_pair-All P eq k c l h p = elim (Bool-cases (exists_where (λ e. eq e.0 k && e.1 == c) l)) [
  | inl there ↦ rw there h
  | inr new ↦ rw new (All-append_one P l (k, c) h p)
]

add_sid-All :
    (s : Option String) (c : ℕ) (h : ℕ → Connection) (l : List (String × ℕ))
    → (h c).sid ≡ s
    → (h c).closed ≡ false
    → All (OfSid h) l
    → All (OfSid h) (add_sid s c l)
add_sid-All none c h l e live v = v
add_sid-All (some s) c h l e live v = add_pair-All (OfSid h) str_eq s c l v (e, live)

add_indices-IsIndexed :
    (c : ℕ) (m : Manager) → (m.heap c).closed ≡ false → IsIndexed m → IsIndexed (add_indices c m)
add_indices-IsIndexed c m live v = record {
  principals =
      add_pair-All (OfPrincipal m.heap) ◌==◌ (m.heap c).principal_id c m.by_principal v.principals
        (refl, live);
  topics = v.topics;
  sids = add_sid-All (m.heap c).sid c m.heap m.by_sid refl live v.sids;
  tabs = v.tabs;
}

pub register-IsIndexed :
    (c : ℕ) (m : Manager) → (m.heap c).closed ≡ false → IsIndexed m → IsIndexed (register c m)
unfolding register
register-IsIndexed c m live v =
    let s = (m.heap c).sid in
    let d = (m.heap c).cid in
    add_indices-IsIndexed c (claim_tab s d c m) (rw (claim_tab-heap s d c m) live)
      (claim_tab-IsIndexed s d c m live refl refl v)

mem_text-without :
    (t u : String) (l : List String)
    → str_eq t u ≡ false
    → mem_text t l ≡ true
    → mem_text t (without_text u l) ≡ true
mem_text-without t u [] ne h = absurd (ground arith)
mem_text-without t u (s ∷ l) ne h =
    ground (arith, mem_text-without t u l ne, (eq_iff s u).0, (eq_iff s t).0, eq_refl u)

mem_text-added :
    (t u : String) (l : List String)
    → mem_text u l ≡ true
    → mem_text u (if mem_text t l then l else t ∷ l) ≡ true
mem_text-added t u l h = ground (arith, h)

mem_text_self :
    (t : String) (l : List String) → mem_text t (if mem_text t l then l else t ∷ l) ≡ true
mem_text_self t l = ground (arith, eq_refl t)

pub subscribe-IsIndexed :
    (c : ℕ) (t : String) (m : Manager)
    → (m.heap c).closed ≡ false
    → IsIndexed m
    → IsIndexed (subscribe c t m)
unfolding subscribe
subscribe-IsIndexed c t m live v =
    let h' = (subscribe c t m).heap in
    record {
      principals = All-map _ (OfPrincipal h') m.by_principal v.principals (λ e o. ground arith);
      topics =
          add_pair-All (OfTopic h') str_eq t c m.by_topic
            (All-map _ (OfTopic h') m.by_topic v.topics
              (λ e o. ground (arith, o, mem_text-added t e.0 (m.heap c).subscriptions)))
            (ground (arith, live, mem_text_self t (m.heap c).subscriptions));
      sids = All-map _ (OfSid h') m.by_sid v.sids (λ e o. ground arith);
      tabs = All-map _ (OfTab h') m.by_sid_cid v.tabs (λ e o. ground arith);
    }

pub unsubscribe-IsIndexed :
    (c : ℕ) (t : String) (m : Manager) → IsIndexed m → IsIndexed (unsubscribe c t m)
unfolding unsubscribe
unsubscribe-IsIndexed c t m v =
    let h' = (unsubscribe c t m).heap in
    record {
      principals = All-map _ (OfPrincipal h') m.by_principal v.principals (λ e o. ground arith);
      topics =
          All-delete_where _ (OfTopic h') _ m.by_topic v.topics
            (λ e o kept. ground (arith, o, kept, mem_text-without e.0 t (m.heap c).subscriptions));
      sids = All-map _ (OfSid h') m.by_sid v.sids (λ e o. ground arith);
      tabs = All-map _ (OfTab h') m.by_sid_cid v.tabs (λ e o. ground arith);
    }
