-- ===== src/SearchResponse/Pages.antt =====
-- The pages in which results are shown.
use cadaver.Common.{
  ℕ, ◌+◌, ◌≤◌, ◌%◌, ◌≡◌, ◌∙◌, inl, inr, refl, sym, ap, Bool, true, false, List, [], ◌∷◌, ◌++◌,
  arith, ◌==◌, Bool-cases, All, length,
}
use cadaver.SearchResponse.{
  SearchRes, DeadProp, Row, row_of, Line, dead_lines, head_lines, display_from,
}
use Line.{found, result, dead, more}

-- The results among the lines, with their numbers.
abbrev pub results_in : List Line → List (ℕ × Row)
results_in [] = []
results_in (found n a b ∷ lines) = results_in lines
results_in (result i res ∷ lines) = (i, res) ∷ results_in lines
results_in (dead p ∷ lines) = results_in lines
results_in (more ∷ lines) = results_in lines

-- What is shown of results, with their numbers, from `i` on.
abbrev pub numbered : ℕ → List SearchRes → List (ℕ × Row)
numbered i [] = []
numbered i (res ∷ rest) = (i, row_of res) ∷ numbered (i + 1) rest

results_in-append : (a b : List Line) → results_in (a ++ b) ≡ results_in a ++ results_in b
results_in-append [] b = refl
results_in-append (found n x y ∷ a) b = results_in-append a b
results_in-append (result i res ∷ a) b = ap (λ l. (i, res) ∷ l) (results_in-append a b)
results_in-append (dead p ∷ a) b = results_in-append a b
results_in-append (more ∷ a) b = results_in-append a b

head_lines_lem :
    (num i : ℕ) (lines : List Line) → results_in (head_lines num i ++ lines) ≡ results_in lines
head_lines_lem num i lines = elim (Bool-cases (i % 15 == 1)) [
  | inl b ↦ rw b refl
  | inr b ↦ rw b refl
]

dead_lines_lem :
    (searchall : Bool) (ps : List DeadProp) (lines : List Line)
    → results_in (dead_lines searchall ps ++ lines) ≡ results_in lines
dead_lines_lem searchall [] lines = refl
dead_lines_lem true (p ∷ ps) lines = dead_lines_lem true ps lines
dead_lines_lem false (p ∷ ps) lines = refl

-- A result with its head and its properties.
shown_lem :
    (searchall : Bool) (num i : ℕ) (res : SearchRes) (lines : List Line)
    → results_in
        (head_lines num i ++ (result i (row_of res) ∷ dead_lines searchall res.root) ++ lines)
      ≡ (i, row_of res) ∷ results_in lines
shown_lem searchall num i res lines =
    results_in-append (head_lines num i ++ (result i (row_of res) ∷ dead_lines searchall res.root))
      lines
    ∙ ap (λ l. l ++ results_in lines)
        (head_lines_lem num i (result i (row_of res) ∷ dead_lines searchall res.root))
    ∙ ap (λ l. (i, row_of res) ∷ l)
        (sym (results_in-append (dead_lines searchall res.root) lines)
          ∙ dead_lines_lem searchall res.root lines)

-- Where the user wants more at each question, all results are shown, in the order of the list and
-- numbered without a gap.
pub display_from-numbered :
    (searchall : Bool) (num i : ℕ) (root : List SearchRes) (answers : List Bool)
    → All (λ q. q ≡ false) answers
    → length root ≤ length answers
    → results_in (display_from searchall num i root answers) ≡ numbered i root
unfolding display_from
display_from-numbered searchall num i [] answers h n = refl
display_from-numbered searchall num i (res ∷ root) [] h n = absurd (omega (arith, n))
display_from-numbered searchall num i (res ∷ root) (q ∷ answers) h n =
    elim (Bool-cases (i % 15 == 0)) [
      | inl b ↦
          rw (b, h.0)
            (shown_lem searchall num i res (more ∷ display_from searchall num (i + 1) root answers)
              ∙ ap (λ l. (i, row_of res) ∷ l)
                  (display_from-numbered searchall num (i + 1) root answers h.1 (omega (arith, n))))
      | inr b ↦ rw b (
          shown_lem searchall num i res (display_from searchall num (i + 1) root (q ∷ answers))
          ∙ ap (λ l. (i, row_of res) ∷ l)
              (display_from-numbered searchall num (i + 1) root (q ∷ answers) h (omega (arith, n))))
    ]
