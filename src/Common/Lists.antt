-- ===== src/Common/Lists.antt =====
-- Lists measured by native numbers, and predicates on their elements.
use Prim.Native.Nat.{ℕ, zero, suc, ◌+◌, ◌≤◌}
use mathlib.Core.Path.{◌≡◌, refl, sym, subst, ap}
use mathlib.Core.List.{List, [], ◌∷◌, ◌++◌, Memᴰ}
use native.Mathlib.Omega.{arith}

module _ {ℓ} {A : Type ℓ} where
  abbrev pub length : List A → ℕ
  length [] = 0
  length (x ∷ xs) = suc (length xs)

  pub length-append : (xs ys : List A) → length (xs ++ ys) ≡ length xs + length ys
  length-append [] ys = omega arith
  length-append (x ∷ xs) ys = omega (arith, length-append xs ys)

module _ {ℓ} {A : Type ℓ} where
  pub nil_of_length : (xs : List A) → length xs ≡ 0 → xs ≡ []
  nil_of_length [] h = refl
  nil_of_length (x ∷ xs) h = absurd (omega arith)

-- `P` holds of every element.
abbrev pub All {ℓ κ} : {A : Type ℓ} → (A → Type κ) → List A → Type κ
All P [] = Unit
All P (x ∷ xs) = P x × All P xs

pub All-append {ℓ κ} :
    {A : Type ℓ} (P : A → Type κ) (xs ys : List A) → All P xs → All P ys → All P (xs ++ ys)
All-append P [] ys h k = k
All-append P (x ∷ xs) ys h k = (h.0, All-append P xs ys h.1 k)

pub All-mem {ℓ κ} : {A : Type ℓ} (P : A → Type κ) {a : A} (l : List A) → All P l → Memᴰ a l → P a
All-mem P [] h m = elim m [ ]
All-mem P (x ∷ l) h (Memᴰ.head e) = subst P (sym e) h.0
All-mem P (x ∷ l) h (Memᴰ.tail m) = All-mem P l h.1 m

module _ {ℓ} {A : Type ℓ} where
  -- A list less its last element, and that element, with `d` for an empty list.
  abbrev pub but_last : List A → List A
  but_last [] = []
  but_last (x ∷ []) = []
  but_last (x ∷ y ∷ xs) = x ∷ but_last (y ∷ xs)

  abbrev pub last_or : List A → A → A
  last_or [] d = d
  last_or (x ∷ []) d = x
  last_or (x ∷ y ∷ xs) d = last_or (y ∷ xs) d

  pub but_last-append : (xs : List A) (x : A) → but_last (xs ++ x ∷ []) ≡ xs
  but_last-append [] x = refl
  but_last-append (y ∷ []) x = refl
  but_last-append (y ∷ z ∷ xs) x = ap (◌∷◌ y) (but_last-append (z ∷ xs) x)

  pub last_or-append : (xs : List A) (x d : A) → last_or (xs ++ x ∷ []) d ≡ x
  last_or-append [] x d = refl
  last_or-append (y ∷ []) x d = refl
  last_or-append (y ∷ z ∷ xs) x d = last_or-append (z ∷ xs) x d

module _ {ℓ} {A : Type ℓ} where
  abbrev pub take : ℕ → List A → List A
  take zero xs = []
  take (suc n) [] = []
  take (suc n) (x ∷ xs) = x ∷ take n xs

  pub length-take-le : (n : ℕ) (xs : List A) → length (take n xs) ≤ n
  length-take-le zero xs = omega arith
  length-take-le (suc n) [] = omega arith
  length-take-le (suc n) (x ∷ xs) = omega (arith, length-take-le n xs)
