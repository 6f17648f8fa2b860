-- ===== src/Accounts/Policy.antt =====
-- app/core/security.py: the policy on the fields of an admin.
use Prim.Native.Char.{code}
use stream_sight_backend.Prelude.{
  ℕ, Bool, true, ◌&&◌, ◌||◌, List, [], ◌∷◌, String, leb, ◌==◌, length,
}
use stream_sight_backend.Accounts.World.{Env}

-- the code points of a text
abbrev pub codes : String → List ℕ
codes String.[] = []
codes (String.◌∷◌ c s) = code c ∷ codes s

-- `[a-z0-9._-]`
abbrev pub username_char : ℕ → Bool
username_char c =
    (leb b'a' c && leb c b'z') || (leb b'0' c && leb c b'9') || c == b'.' || c == b'_' || c == b'-'

abbrev pub all_chars : (ℕ → Bool) → List ℕ → Bool
all_chars p [] = true
all_chars p (c ∷ s) = p c && all_chars p s

-- `USERNAME_RE.fullmatch(username)`
unfoldable pub username_matches : String → Bool
username_matches s =
    all_chars username_char (codes s) && leb 3 (length (codes s)) && leb (length (codes s)) 100

-- `validate_admin_password`, which raises ValueError where this is false
unfoldable pub password_valid : String → Bool
password_valid s = leb 8 (length (codes s)) && leb (length (codes s)) 128

unfoldable pub name_valid : String → Bool
name_valid s = leb 1 (length (codes s)) && leb (length (codes s)) 100

-- `normalize_username`
abbrev pub normalize_username : Env → String → String
normalize_username env raw = env.lower (env.strip raw)
