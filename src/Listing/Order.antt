-- ===== src/Listing/Order.antt =====
-- The order of a listing: errors first, then collections, then all else, by path within the last
-- two groups.
use Prim.Native.Nat.{Ordering}
use cadaver.Common.{ℕ, ◌<◌, ◌≡◌, ◌≢◌, refl, Bool, true, false, List, [], ◌∷◌, ◌⊎◌, arith, if_cases}
use cadaver.Common.Text.{Bytes}
use cadaver.Listing.{
  ResourceType, resr_normal, resr_collection, resr_reference, resr_error, Resource, strcmp,
  compare_resource, stops_at, insert, Response, results, collect, skipped,
}

abbrev pub rank : ResourceType → ℕ
rank resr_error = 0
rank resr_collection = 1
rank resr_normal = 2
rank resr_reference = 2

-- The order of bytes, lexicographically.
abbrev pub LexLe : Bytes → Bytes → Type 0
LexLe [] b = Unit
LexLe (x ∷ a) [] = ⊥
LexLe (x ∷ a) (y ∷ b) = (x < y) ⊎ ((x ≡ y) × LexLe a b)

abbrev pub Precedes : Resource → Resource → Type 0
Precedes r1 r2 =
    (rank r1.type < rank r2.type)
    ⊎ ((rank r1.type ≡ rank r2.type) × ((rank r1.type ≡ 0) ⊎ LexLe r1.uri r2.uri))

abbrev pub IsSorted : List Resource → Type 0
IsSorted [] = Unit
IsSorted (r1 ∷ []) = Unit
IsSorted (r1 ∷ r2 ∷ l) = Precedes r1 r2 × IsSorted (r2 ∷ l)

strcmp-LexLe : (a b : Bytes) → strcmp a b ≡ Ordering.lt → LexLe a b
unfolding strcmp
strcmp-LexLe [] b h = tt
strcmp-LexLe (x ∷ a) [] h = cc
strcmp-LexLe (x ∷ a) (y ∷ b) h = ground (arith, strcmp-LexLe a b)

strcmp-LexLe_flip : (a b : Bytes) → strcmp a b ≢ Ordering.lt → LexLe b a
unfolding strcmp
strcmp-LexLe_flip a [] h = tt
strcmp-LexLe_flip [] (y ∷ b) h = absurd (h refl)
strcmp-LexLe_flip (x ∷ a) (y ∷ b) h = ground (arith, strcmp-LexLe_flip a b)

compare_resource-before :
    (r1 r2 : Resource) → stops_at (compare_resource r1 r2) ≡ false → Precedes r1 r2
unfolding compare_resource
compare_resource-before r1 r2 h = ground (arith, strcmp-LexLe r1.uri r2.uri)

compare_resource-after :
    (r1 r2 : Resource) → stops_at (compare_resource r1 r2) ≡ true → Precedes r2 r1
unfolding compare_resource
compare_resource-after r1 r2 h = ground (arith, strcmp-LexLe_flip r1.uri r2.uri)

abbrev Heads : Resource → List Resource → Type 0
Heads r [] = Unit
Heads r (x ∷ l) = Precedes r x

IsSorted-cons : (r : Resource) (l : List Resource) → Heads r l → IsSorted l → IsSorted (r ∷ l)
IsSorted-cons r [] h s = tt
IsSorted-cons r (x ∷ l) h s = (h, s)

IsSorted-Heads : (r : Resource) (l : List Resource) → IsSorted (r ∷ l) → Heads r l
IsSorted-Heads r [] s = tt
IsSorted-Heads r (x ∷ l) s = s.0

IsSorted-tail : (r : Resource) (l : List Resource) → IsSorted (r ∷ l) → IsSorted l
IsSorted-tail r [] s = tt
IsSorted-tail r (x ∷ l) s = s.1

Heads-insert :
    (x r : Resource) (l : List Resource) → Precedes x r → Heads x l → Heads x (insert r l)
unfolding insert
Heads-insert x r [] p h = p
Heads-insert x r (y ∷ l) p h =
    if_cases (Heads x) (stops_at (compare_resource y r)) (λ _. p) (λ _. h)

insert-IsSorted : (r : Resource) (l : List Resource) → IsSorted l → IsSorted (insert r l)
unfolding insert
insert-IsSorted r [] s = tt
insert-IsSorted r (x ∷ l) s =
    if_cases IsSorted (stops_at (compare_resource x r)) (λ e. (compare_resource-after x r e, s))
      (λ e.
        IsSorted-cons x (insert r l)
          (Heads-insert x r l (compare_resource-before x r e) (IsSorted-Heads x l s))
          (insert-IsSorted r l (IsSorted-tail x l s)))

module _ (strtol : Bytes → ℕ × Bytes) (httpdate : Bytes → ℕ)
    (path_compare : Bytes → Bytes → Bool) where
  -- Whatever the server reports, and in whatever order, a sorted list stays sorted under the
  -- callback: errors first, then collections and then the rest, each of the last two by path.
  pub collect-IsSorted :
      (target : Bytes) (include_target : Bool) (l : List Resource) (rs : List Response)
      → IsSorted l
      → IsSorted (collect strtol httpdate path_compare target include_target l rs)
  unfolding collect
  collect-IsSorted target inc l [] s = s
  collect-IsSorted target inc l (r ∷ rs) s =
      collect-IsSorted target inc (results strtol httpdate path_compare target inc l r) rs (
        if_cases IsSorted (skipped strtol httpdate path_compare target inc r) (λ _. s)
          (λ _. insert-IsSorted _ l s))
