-- ===== src/BaseName.antt =====
-- `base_name` of lib/basename.c: the last segment of a path.
use cadaver.Common.{
  ℕ, ◌≡◌, ◌≢◌, refl, sym, ◌∙◌, Bool, true, false, ◌&&◌, [], ◌∷◌, ◌++◌, arith, ◌==◌, if◌then◌else◌,
  All,
}
use cadaver.Common.Text.{Bytes}

abbrev pub slash : ℕ
slash = b'/'

-- The loop: `base` is what `base` points to, and the flag is `all_slashes`.
base_loop : Bytes → Bytes → Bool → Bytes × Bool
base_loop [] base all_slashes = (base, all_slashes)
base_loop (c ∷ p) base all_slashes =
    base_loop p (if c == slash then p else base) (if c == slash then all_slashes else false)

starts_with_slash : Bytes → Bool
starts_with_slash [] = false
starts_with_slash (c ∷ _) = c == slash

-- Where `base` is the end of a name that is all slashes, it goes back to the last of them.
abbrev step_back : Bytes → Bytes × Bool → Bytes
step_back name ([], all_slashes) = if starts_with_slash name && all_slashes then slash ∷ [] else []
step_back name (c ∷ base, all_slashes) = c ∷ base

unfoldable pub base_name : Bytes → Bytes
unfolding base_loop starts_with_slash
base_name name = step_back name (base_loop name name true)

abbrev pub IsSegment : Bytes → Type 0
IsSegment = All (λ c. c ≢ slash)

base_loop-IsSegment :
    (seg base : Bytes) (a : Bool) → IsSegment seg → (base_loop seg base a).0 ≡ base
unfolding base_loop
base_loop-IsSegment [] base a h = refl
base_loop-IsSegment (c ∷ seg) base a h = ground (arith, base_loop-IsSegment seg base false h.1, h.0)

base_loop-append :
    (dir seg base : Bytes) (a : Bool)
    → IsSegment seg
    → (base_loop (dir ++ slash ∷ seg) base a).0 ≡ seg
unfolding base_loop
base_loop-append [] seg base a h = base_loop-IsSegment seg seg a h
base_loop-append (c ∷ dir) seg base a h = base_loop-append dir seg _ _ h

step_back-eq : (name : Bytes) (r : Bytes × Bool) → r.0 ≢ [] → step_back name r ≡ r.0
step_back-eq name ([], a) h = absurd (h refl)
step_back-eq name (c ∷ b, a) h = refl

-- The last segment of a path, if it is not empty.
pub base_name-append :
    (dir seg : Bytes) → IsSegment seg → seg ≢ [] → base_name (dir ++ slash ∷ seg) ≡ seg
unfolding base_name
base_name-append dir seg h ne =
    let path = dir ++ slash ∷ seg in
    let e = base_loop-append dir seg path true h in
    step_back-eq path (base_loop path path true) (λ z. ne (sym e ∙ z)) ∙ e

-- A name with no slash is its own last segment.
pub base_name-IsSegment : (seg : Bytes) → IsSegment seg → base_name seg ≡ seg
unfolding base_name
base_name-IsSegment [] h = refl
base_name-IsSegment (c ∷ seg) h =
    let e = base_loop-IsSegment (c ∷ seg) (c ∷ seg) true h in
    step_back-eq (c ∷ seg) (base_loop (c ∷ seg) (c ∷ seg) true) (λ z. cc (sym e ∙ z)) ∙ e

abbrev pub all_slashes : Bytes → Bool
all_slashes [] = true
all_slashes (c ∷ p) = c == slash && all_slashes p

base_loop-all_slashes : (p base : Bytes) (a : Bool) → (base_loop p base a).1 ≡ a && all_slashes p
unfolding base_loop
base_loop-all_slashes [] base a = ground arith
base_loop-all_slashes (c ∷ p) base a =
    ground (arith, base_loop-all_slashes p p a, base_loop-all_slashes p base false)

step_back-nil : (name : Bytes) (r : Bytes × Bool) → r.0 ≡ [] → r.1 ≡ false → step_back name r ≡ []
step_back-nil name ([], a) h f = rw f (ground arith)
step_back-nil name (c ∷ b, a) h f = cc

all_slashes-append : (p q : Bytes) → all_slashes p ≡ false → all_slashes (p ++ q) ≡ false
all_slashes-append [] q h = cc
all_slashes-append (c ∷ p) q h = ground (arith, all_slashes-append p q)

-- A path that ends in a slash has the empty name as its last segment, unless it is all slashes.
pub base_name-trailing :
    (dir : Bytes) → all_slashes dir ≡ false → base_name (dir ++ slash ∷ []) ≡ []
unfolding base_name
base_name-trailing dir h =
    let path = dir ++ slash ∷ [] in
    step_back-nil path (base_loop path path true) (base_loop-append dir [] path true tt)
      (base_loop-all_slashes path path true ∙ all_slashes-append dir (slash ∷ []) h)
