-- ===== src/Records/Keyword.antt =====
-- app/services/service_record.py: `_escape_like`, and the patterns of SQL's `LIKE ... ESCAPE '\'`
-- that it writes. A text is the list of its code points.
pub mod Search
use stream_sight_backend.Prelude.{
  ℕ, ◌≡◌, Bool, true, false, ◌&&◌, ◌||◌, Option, none, some, List, [], ◌∷◌, ◌++◌, String, ◌==◌,
  if◌then◌else◌,
}
use stream_sight_backend.Accounts.World.{Env}
use stream_sight_backend.Accounts.Policy.{codes}

-- `text.replace(c, new)`, for a `c` of one character
unfoldable pub replace : ℕ → List ℕ → List ℕ → List ℕ
replace c new [] = []
replace c new (x ∷ s) = (if x == c then new else x ∷ []) ++ replace c new s

abbrev pub backslash : ℕ
backslash = 92

abbrev pub percent : ℕ
percent = 37

abbrev pub underscore : ℕ
underscore = 95

-- the three replacements, in their order
unfoldable pub escape : List ℕ → List ℕ
unfolding replace
escape kw =
    replace underscore (backslash ∷ underscore ∷ []) (
      replace percent (backslash ∷ percent ∷ [])
        (replace backslash (backslash ∷ backslash ∷ []) kw))

unfoldable pub like_pattern : List ℕ → Option (List ℕ)
like_pattern [] = none
like_pattern (c ∷ kw) = some (percent ∷ escape (c ∷ kw) ++ percent ∷ [])

-- `_escape_like`
unfoldable pub escape_like : Env → Option String → Option (List ℕ)
escape_like env none = none
escape_like env (some keyword) = like_pattern (codes (env.lower (env.strip keyword)))

-- A pattern of LIKE by its parts: `%`, `_`, and a character for itself.
pub data Part : Type 0 where
  any one : Part
  lit : ℕ → Part

abbrev pub part_of : ℕ → Part
part_of c = if c == percent then any else if c == underscore then one else lit c

-- The backslash takes the character after it for itself.
unfoldable pub parts : List ℕ → List Part
parts [] = []
parts (c ∷ []) = part_of c ∷ []
parts (c ∷ d ∷ p) =
    let after = parts p in
    let rest = parts (d ∷ p) in if c == backslash then lit d ∷ after else part_of c ∷ rest

-- What it means for a text to match a pattern, where `same` says which characters the collation
-- takes for equal.
abbrev pub Matches : (ℕ → ℕ → Bool) → List Part → List ℕ → Type 0
Matches same [] text = text ≡ []
Matches same (any ∷ p) text =
    (before : List ℕ) × (rest : List ℕ) × (text ≡ before ++ rest) × Matches same p rest
Matches same (one ∷ p) text = (c : ℕ) × (rest : List ℕ) × (text ≡ c ∷ rest) × Matches same p rest
Matches same (lit c ∷ p) text =
    (d : ℕ) × (rest : List ℕ) × (text ≡ d ∷ rest) × (same c d ≡ true) × Matches same p rest

-- The text begins with the keyword, character for character as the collation takes them.
abbrev pub Begins : (ℕ → ℕ → Bool) → List ℕ → List ℕ → Type 0
Begins same [] text = Unit
Begins same (c ∷ kw) text =
    (d : ℕ) × (rest : List ℕ) × (text ≡ d ∷ rest) × (same c d ≡ true) × Begins same kw rest

-- The text has the keyword in it.
abbrev pub Contains : (ℕ → ℕ → Bool) → List ℕ → List ℕ → Type 0
Contains same kw text =
    (before : List ℕ) × (rest : List ℕ) × (text ≡ before ++ rest) × Begins same kw rest

-- A matcher, for tests
some_suffix : (List ℕ → Bool) → List ℕ → Bool
some_suffix f [] = f []
some_suffix f (c ∷ text) = f (c ∷ text) || some_suffix f text

unfoldable pub matches : (ℕ → ℕ → Bool) → List Part → List ℕ → Bool
unfolding some_suffix
matches same [] [] = true
matches same [] (c ∷ text) = false
matches same (any ∷ p) text = some_suffix (matches same p) text
matches same (one ∷ p) [] = false
matches same (one ∷ p) (c ∷ text) = matches same p text
matches same (lit d ∷ p) [] = false
matches same (lit d ∷ p) (c ∷ text) = same d c && matches same p text
