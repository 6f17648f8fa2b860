-- ===== src/Prelude/Slices.antt =====
-- Slices of lists by native numbers: what LIMIT and OFFSET cut out.
use mathlib.Core.List.{map}
use stream_sight_backend.Prelude.{
  ℕ, zero, suc, ◌+◌, ◌≤◌, ◌≡◌, refl, ap, List, [], ◌∷◌, ◌++◌, arith, take, drop, length, sym,
}
use native.Mathlib.Nat.{zero-add, suc-add}

module _ {ℓ} {A : Type ℓ} where
  pub take-nil : (m : ℕ) → take {A = A} m [] ≡ []
  take-nil zero = refl
  take-nil (suc m) = refl

  drop-nil : (m : ℕ) → drop {A = A} m [] ≡ []
  drop-nil zero = refl
  drop-nil (suc m) = refl

  take-add : (m n : ℕ) (l : List A) → take m l ++ take n (drop m l) ≡ take (m + n) l
  take-add zero n l = rw (zero-add n)
  take-add (suc m) n [] = rw (suc-add m n) (take-nil n)
  take-add (suc m) n (x ∷ l) = rw (suc-add m n) (ap (λ t. x ∷ t) (take-add m n l))

  drop-add : (k m : ℕ) (l : List A) → drop (k + m) l ≡ drop m (drop k l)
  drop-add zero m l = rw (zero-add m)
  drop-add (suc k) m [] = rw (suc-add k m) (sym (drop-nil m))
  drop-add (suc k) m (x ∷ l) = rw (suc-add k m) (drop-add k m l)

  pub take-drop :
      (m n k : ℕ) (l : List A)
      → take m (drop k l) ++ take n (drop (k + m) l) ≡ take (m + n) (drop k l)
  take-drop m n k l = rw (drop-add k m l) (take-add m n (drop k l))

module _ {ℓ} {A : Type ℓ} where
  pub length-take_le : (n : ℕ) (l : List A) → length (take n l) ≤ n
  length-take_le zero l = omega arith
  length-take_le (suc n) [] = omega arith
  length-take_le (suc n) (x ∷ l) = ground (arith, length-take_le n l)

  pub length-take_all : (n : ℕ) (l : List A) → length l ≤ n → length (take n l) ≡ length l
  length-take_all zero [] h = refl
  length-take_all zero (x ∷ l) h = absurd (omega arith)
  length-take_all (suc n) [] h = refl
  length-take_all (suc n) (x ∷ l) h = ap suc (length-take_all n l (omega arith))

pub length-map {ℓ κ} :
    {A : Type ℓ} {B : Type κ} (f : A → B) (l : List A) → length (map f l) ≡ length l
length-map f [] = refl
length-map f (x ∷ l) = ap suc (length-map f l)
