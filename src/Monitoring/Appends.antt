-- ===== src/Monitoring/Appends.antt =====
-- app/services/monitoring/store.py: `append` and `append_many` of RedisStreamStore, by the commands
-- that they send. An entry is held by a number that stands for its fields.
use mathlib.Core.List.{map}
use stream_sight_backend.Prelude.{
  ℕ, ◌-◌, ◌≡◌, refl, Bool, false, ◌||◌, ◌&&◌, Option, none, some, List, [], ◌∷◌, ◌++◌, String,
  is_some, length, take, All, if◌then◌else◌,
}

-- XADD with its trimming, and XTRIM by MINID
pub data Command : Type 0 where
  xadd : ℕ → (maxlen minid : Option ℕ) → (approximate : Bool) → Command
  xtrim : ℕ → Command

-- `minid if maxlen is None else None`
abbrev pub xadd_minid : Option ℕ → Option ℕ → Option ℕ
xadd_minid none minid = minid
xadd_minid (some n) minid = none

abbrev pub xadd_of : Option ℕ → Option ℕ → ℕ → Command
xadd_of maxlen minid e =
    xadd e maxlen (xadd_minid maxlen minid) (is_some maxlen || is_some (xadd_minid maxlen minid))

-- the XTRIM that follows where both are given
abbrev pub trim_of : Option ℕ → Option ℕ → List Command
trim_of (some n) (some m) = xtrim m ∷ []
trim_of (some n) none = []
trim_of none m = []

-- `append`
unfoldable pub append_commands : Option ℕ → Option ℕ → ℕ → List Command
append_commands maxlen minid e = xadd_of maxlen minid e ∷ trim_of maxlen minid

-- the pipeline of `append_many`
unfoldable pub append_many_commands : Option ℕ → Option ℕ → List ℕ → List Command
append_many_commands maxlen minid [] = []
append_many_commands maxlen minid (e ∷ es) =
    map (xadd_of maxlen minid) (e ∷ es) ++ trim_of maxlen minid

-- `results[:-1] if trim_by_xtrim else results`
unfoldable pub ids_of : Option ℕ → Option ℕ → List String → List String
ids_of maxlen minid results =
    if is_some maxlen && is_some minid then take (length results - 1) results else results

-- An XADD trims by at most one of MAXLEN and MINID.
abbrev pub IsSingleTrim : Command → Type 0
IsSingleTrim (xadd e maxlen minid approximate) = (is_some maxlen && is_some minid) ≡ false
IsSingleTrim (xtrim m) = Unit

xadd_of-IsSingleTrim : (maxlen minid : Option ℕ) (e : ℕ) → IsSingleTrim (xadd_of maxlen minid e)
xadd_of-IsSingleTrim none none e = refl
xadd_of-IsSingleTrim none (some m) e = refl
xadd_of-IsSingleTrim (some n) minid e = refl

trim_of-IsSingleTrim : (maxlen minid : Option ℕ) → All IsSingleTrim (trim_of maxlen minid)
trim_of-IsSingleTrim (some n) (some m) = (tt, tt)
trim_of-IsSingleTrim (some n) none = tt
trim_of-IsSingleTrim none m = tt

adds_single :
    (maxlen minid : Option ℕ) (es : List ℕ)
    → All IsSingleTrim (map (xadd_of maxlen minid) es ++ trim_of maxlen minid)
adds_single maxlen minid [] = trim_of-IsSingleTrim maxlen minid
adds_single maxlen minid (e ∷ es) =
    (xadd_of-IsSingleTrim maxlen minid e, adds_single maxlen minid es)

-- No XADD of a batch asks for both trimmings, which Redis refuses.
append_many_single :
    (maxlen minid : Option ℕ) (es : List ℕ)
    → All IsSingleTrim (append_many_commands maxlen minid es)
unfolding append_many_commands
append_many_single maxlen minid [] = tt
append_many_single maxlen minid (e ∷ es) = adds_single maxlen minid (e ∷ es)
