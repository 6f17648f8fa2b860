-- ===== src/Records/Keyword/Search.antt =====
-- app/services/service_record.py: what a keyword finds.
use stream_sight_backend.Prelude.{
  ℕ, ◌≡◌, ◌↔◌, refl, sym, ap, subst, ◌∙◌, Bool, true, false, ◌||◌, some, List, [], ◌∷◌, ◌++◌,
  String, arith, ◌==◌, if◌then◌else◌, Bool-cases, inl, inr,
}
use mathlib.Core.List.{append_assoc, append-nil}
use stream_sight_backend.Accounts.World.{Env}
use stream_sight_backend.Accounts.Policy.{codes}
use stream_sight_backend.Records.Keyword.{
  replace, backslash, percent, underscore, escape, like_pattern, escape_like, Part, any, one, lit,
  parts, Matches, Begins, Contains, some_suffix, matches,
}

-- one character escaped
abbrev escaped : ℕ → List ℕ
escaped c =
    if c == backslash
    then backslash ∷ backslash ∷ []
    else if c == percent
    then backslash ∷ percent ∷ []
    else if c == underscore
    then backslash ∷ underscore ∷ []
    else c ∷ []

replace-append :
    (c : ℕ) (new s t : List ℕ) → replace c new (s ++ t) ≡ replace c new s ++ replace c new t
unfolding replace
replace-append c new [] t = refl
replace-append c new (x ∷ s) t = rw (replace-append c new s t, append_assoc)

escape-cons : (c : ℕ) (kw : List ℕ) → escape (c ∷ kw) ≡ escaped c ++ escape kw
unfolding escape replace
escape-cons c kw = ground arith

parts-escaped : (c : ℕ) (x : ℕ) (s : List ℕ) → parts (escaped c ++ (x ∷ s)) ≡ lit c ∷ parts (x ∷ s)
unfolding parts
parts-escaped c x s = ground arith

-- the tokens of an escaped keyword before the last `%`
abbrev lits : List ℕ → List Part
lits [] = any ∷ []
lits (c ∷ kw) = lit c ∷ lits kw

abbrev tail_of : List ℕ → List ℕ
tail_of kw = escape kw ++ percent ∷ []

append_one-cons : (s : List ℕ) (c : ℕ) → (x : ℕ) × (t : List ℕ) × (s ++ c ∷ [] ≡ x ∷ t)
append_one-cons [] c = (c, [], refl)
append_one-cons (x ∷ s) c = (x, s ++ c ∷ [], refl)

parts-tail_of : (kw : List ℕ) → parts (tail_of kw) ≡ lits kw
parts-tail_of [] = unfold escape replace parts in refl
parts-tail_of (c ∷ kw) =
    let (x, s, e) = append_one-cons (escape kw) percent in
    let step : tail_of (c ∷ kw) ≡ escaped c ++ (x ∷ s) =
      ap (λ (t : List ℕ). t ++ percent ∷ []) (escape-cons c kw)
      ∙ append_assoc (escaped c) (escape kw) (percent ∷ [])
      ∙ ap (λ (t : List ℕ). escaped c ++ t) e in
    rw step (
      parts-escaped c x s ∙ ap (λ (p : List Part). lit c ∷ p) (ap parts (sym e) ∙ parts-tail_of kw))

parts-pattern : (kw : List ℕ) → parts (percent ∷ tail_of kw) ≡ any ∷ lits kw
parts-pattern kw =
    let (x, s, e) = append_one-cons (escape kw) percent in
    rw e (unfold parts in rw (← e) (ap (λ (p : List Part). any ∷ p) (parts-tail_of kw)))

module _ (same : ℕ → ℕ → Bool) where
  -- the literals match exactly the texts that begin with the keyword
  Matches-lits : (kw text : List ℕ) → Matches same (lits kw) text → Begins same kw text
  Matches-lits [] text m = tt
  Matches-lits (c ∷ kw) text (d, rest, e, s, m) = (d, rest, e, s, Matches-lits kw rest m)

  lits-Matches : (kw text : List ℕ) → Begins same kw text → Matches same (lits kw) text
  lits-Matches [] text b = (text, [], sym (append-nil text), refl)
  lits-Matches (c ∷ kw) text (d, rest, e, s, b) = (d, rest, e, s, lits-Matches kw rest b)

  -- the pattern of a keyword matches exactly the texts that have it in them
  pub pattern_iff :
      (kw text : List ℕ) → Matches same (parts (percent ∷ tail_of kw)) text ↔ Contains same kw text
  pattern_iff kw text = rw (parts-pattern kw) (
    λ (before, rest, e, m). (before, rest, e, Matches-lits kw rest m),
    λ (before, rest, e, b). (before, rest, e, lits-Matches kw rest b),
  )

-- The matcher of the tests agrees with the meaning of a pattern.
nil-append : (before rest : List ℕ) → [] ≡ before ++ rest → rest ≡ []
nil-append [] rest e = sym e
nil-append (b ∷ before) rest e = absurd (cc)

-- `P` holds of a suffix of the text
abbrev Somewhere : (List ℕ → Type 0) → List ℕ → Type 0
Somewhere P text = (before : List ℕ) × (rest : List ℕ) × (text ≡ before ++ rest) × P rest

or-left : (a b : Bool) → a ≡ true → (a || b) ≡ true
or-left a b e = rw e

or-right : (a b : Bool) → b ≡ true → (a || b) ≡ true
or-right true b e = refl
or-right false b e = e

module _ (P : List ℕ → Type 0) (f : List ℕ → Bool) (h : (t : List ℕ) → (f t ≡ true) ↔ P t) where
  some_suffix_sound : (text : List ℕ) → some_suffix f text ≡ true → Somewhere P text
  unfolding some_suffix
  some_suffix_sound [] e = ([], [], refl, (h []).0 e)
  some_suffix_sound (c ∷ text) e = elim (Bool-cases (f (c ∷ text))) [
    | inl here ↦ ([], c ∷ text, refl, (h (c ∷ text)).0 here)
    | inr later ↦
        let (before, rest, same, p) = some_suffix_sound text (ground (arith, e, later)) in
        (c ∷ before, rest, ap (λ (t : List ℕ). c ∷ t) same, p)
  ]

  some_suffix_complete :
      (text before rest : List ℕ) → text ≡ before ++ rest → P rest → some_suffix f text ≡ true
  unfolding some_suffix
  some_suffix_complete [] before rest e p = (h []).1 (subst P (nil-append before rest e) p)
  some_suffix_complete (c ∷ text) [] rest e p = or-left _ _ ((h (c ∷ text)).1 (subst P (sym e) p))
  some_suffix_complete (c ∷ text) (b ∷ before) rest e p =
      or-right (f (c ∷ text)) _ (some_suffix_complete text before rest (cc) p)

pub matches_iff :
    (same : ℕ → ℕ → Bool) (p : List Part) (text : List ℕ)
    → (matches same p text ≡ true) ↔ Matches same p text
unfolding matches
matches_iff same [] [] = (λ e. refl, λ e. refl)
matches_iff same [] (c ∷ text) = (λ e. absurd (cc), λ e. absurd (cc))
matches_iff same (any ∷ p) text = (
  some_suffix_sound (Matches same p) (matches same p) (matches_iff same p) text,
  λ (before, rest, e, m).
      some_suffix_complete (Matches same p) (matches same p) (matches_iff same p) text before rest e
        m,
)
matches_iff same (one ∷ p) [] = (λ e. absurd (cc), λ (c, rest, e, m). absurd (cc))
matches_iff same (one ∷ p) (c ∷ text) = (
  λ e. (c, text, refl, (matches_iff same p text).0 e),
  λ (d, rest, e, m). (matches_iff same p text).1 (subst (Matches same p) (cc) m),
)
matches_iff same (lit d ∷ p) [] = (λ e. absurd (cc), λ (c, rest, e, s, m). absurd (cc))
matches_iff same (lit d ∷ p) (c ∷ text) = (
  λ e. (c, text, refl, ground (arith, e), (matches_iff same p text).0 (ground (arith, e))),
  λ (b, rest, e, s, m).
      (let ih = (matches_iff same p text).1 (subst (Matches same p) (cc) m) in
        let eq : b ≡ c = cc in ground (arith, ih, eq, s)),
)

like_pattern-some :
    (kw pattern : List ℕ)
    → like_pattern kw ≡ some pattern
    → pattern ≡ percent ∷ escape kw ++ percent ∷ []
unfolding like_pattern
like_pattern-some [] pattern e = absurd (ground arith)
like_pattern-some (c ∷ kw) pattern e = cc

-- A keyword that is not blank finds a title exactly if the title, in the case that the database
-- folds it to, has the stripped and lowered keyword in it, character for character as the collation
-- compares them: a `%`, a `_` or a backslash in it stands for itself. `like` is the database's LIKE
-- with the backslash as its escape, and `same` the characters that its collation takes for equal.
pub escape_like-finds :
    (same : ℕ → ℕ → Bool) (like : List ℕ → List ℕ → Bool)
    → ((p text : List ℕ) → (like p text ≡ true) ↔ Matches same (parts p) text)
    → (env : Env) (keyword : String) (title pattern : List ℕ)
    → escape_like env (some keyword) ≡ some pattern
    → (like pattern title ≡ true) ↔ Contains same (codes (env.lower (env.strip keyword))) title
escape_like-finds same like means env keyword title pattern e =
    let kw = codes (env.lower (env.strip keyword)) in
    let written : pattern ≡ percent ∷ escape kw ++ percent ∷ [] =
      like_pattern-some kw pattern (unfold escape_like in e) in
    rw written (
      λ found. (pattern_iff same kw title).0 ((means (percent ∷ tail_of kw) title).0 found),
      λ has. (means (percent ∷ tail_of kw) title).1 ((pattern_iff same kw title).1 has),
    )
