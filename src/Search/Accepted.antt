-- ===== src/Search/Accepted.antt =====
-- The parser ends on every string, moves on by what it reads, and writes a tree.
use cadaver.Common.{
  ℕ, zero, suc, ◌≤◌, ◌<◌, ◌≡◌, refl, sym, ap, ◌∙◌, Bool, true, false, [], ◌∷◌, ◌++◌, arith, length,
  if_cases, if◌then◌else◌,
}
use cadaver.Common.Text.{Bytes, codes, strcaseeq}
use cadaver.Search.{Result, ◌>>=◌, Parsed, Ensures, Ensures-bind}
use cadaver.Search.Words.{first_word_equal, match_fetch}
use cadaver.Search.Grammar.{
  parsed, skip_word, enclosed, chain, chained, parenthesised, boolean_primary, boolean_factor,
  boolean_term, search_condition,
}
use cadaver.Search.Ends.{
  Shorter, Ends, first_word-Ends, first_word_equal-skip_word, match_fetch-Shorter,
}
use cadaver.Search.Trees.{Tree, Trees, render, render_all}
use Tree.{negation, all_of, any_of}
use Trees.{nil, cons}
use Result.{ne_ok}
use cadaver.Search.Predicates.{Accepts, accepts_lem, predicate-Accepts}

-- `parse` accepts what it reads from each string shorter than `n`.
abbrev pub Parses : ℕ → (Bytes → Result Parsed) → Type 0
Parses n parse = (s : Bytes) → length s < n → Ensures (Accepts s) (parse s)

-- The operands of a chain after the first.
abbrev Follows : Bytes → Parsed → Type 0
Follows s p = (length p.rest ≤ length s) × ((ts : Trees) × (p.buf ≡ render_all ts))

module _ (parse : Bytes → Result Parsed) (m : ℕ) (h : Parses m parse) (k : ℕ) (ks : Bytes) where
  -- One turn of the loop, where the next turns are known.
  turn-Follows :
      (n : ℕ) (s : Bytes)
      → ((t : Bytes) → length t < length s → Ensures (Follows t) (chain parse (k ∷ ks) n t))
      → length s < m
      → Ensures (Follows s) (chain parse (k ∷ ks) (suc n) s)
  unfolding render_all
  turn-Follows n s next i =
      Ensures-bind (λ b. b ≡ true → Ensures (Shorter s) (skip_word s)) (Follows s)
        (first_word_equal s (k ∷ ks)) _ (first_word_equal-skip_word s k ks) (λ b. go b)
    where
      go :
          (b : Bool)
          → (b ≡ true → Ensures (Shorter s) (skip_word s))
          → Ensures (Follows s) (elim b [
            | true ↦ skip_word s >>= λ t. parse t >>= λ p.
                chain parse (k ∷ ks) n p.rest >>= λ q. ne_ok (parsed (p.buf ++ q.buf) q.rest)
            | false ↦ ne_ok (parsed [] s)
          ])
      go false f = (omega arith, (nil, refl))
      go true f = Ensures-bind (Shorter s) (Follows s) (skip_word s) _ (f refl) (λ t j.
          Ensures-bind (Accepts t) (Follows s) (parse t) _ (h t (omega (arith, i, j))) (λ p a.
            Ensures-bind (Follows p.rest) (Follows s) (chain parse (k ∷ ks) n p.rest) _
              (next p.rest (omega (arith, j, a.0)))
              (λ q b. (
                omega (arith, j, a.0, b.0),
                (cons a.1.0 b.1.0, ap (λ v. v ++ q.buf) a.1.1 ∙ ap (λ v. render a.1.0 ++ v) b.1.1),
              ))))

  chain-Follows :
      (n : ℕ) (s : Bytes)
      → length s < n
      → length s < m
      → Ensures (Follows s) (chain parse (k ∷ ks) n s)
  chain-Follows zero s l i = absurd (omega (arith, l))
  chain-Follows (suc n) s l i =
      turn-Follows n s (λ t j. chain-Follows n t (omega (arith, j, l)) (omega (arith, i, j))) i

  chained-Accepts :
      (join : Tree → Trees → Tree)
      → ((t : Tree) (ts : Trees)
          → render (join t ts) ≡ enclosed (k ∷ ks) (render t ++ render_all ts))
      → Parses m (chained parse (k ∷ ks) m)
  unfolding first_word_equal
  chained-Accepts join e s l = Ensures-bind (Accepts s) (Accepts s) (parse s) _ (h s l) (λ p a.
      Ensures-bind (λ b. Unit) (Accepts s) (first_word_equal p.rest (k ∷ ks)) _ (word_ends p.rest)
        (λ more u.
          Ensures-bind (Follows p.rest) (Accepts s) (chain parse (k ∷ ks) m p.rest) _
            (chain-Follows m p.rest (omega (arith, l, a.0)) (omega (arith, l, a.0)))
            (λ q b. (omega (arith, a.0, b.0), tree p q a.1 b.1 more))))
    where
      word_ends : (t : Bytes) → Ends (first_word_equal t (k ∷ ks))
      word_ends t = first_word-Ends t (λ w. strcaseeq w.word (k ∷ ks))

      tree :
          (p q : Parsed)
          → (t : Tree) × (p.buf ≡ render t)
          → (ts : Trees) × (q.buf ≡ render_all ts)
          → (more : Bool)
          → (u : Tree) × ((if more then enclosed (k ∷ ks) (p.buf ++ q.buf) else p.buf) ≡ render u)
      tree p q a b false = a
      tree p q a b true = (
        join a.0 b.0,
        ap (enclosed (k ∷ ks)) (ap (λ v. v ++ q.buf) a.1 ∙ ap (λ v. render a.0 ++ v) b.1)
            ∙ sym (e a.0 b.0),
      )

module _ (condition : Bytes → Result Parsed) (n : ℕ) (h : Parses n condition) where
  parenthesised-Accepts :
      (s : Bytes)
      → length s < suc n
      → Ensures (Shorter s) (skip_word s)
      → Ensures (Accepts s) (parenthesised condition s)
  parenthesised-Accepts s l f = Ensures-bind (Shorter s) (Accepts s) (skip_word s) _ f (λ t j.
      Ensures-bind (Accepts t) (Accepts s) (condition t) _ (h t (omega (arith, j, l))) (λ p a.
        Ensures-bind (Shorter p.rest) (Accepts s) (match_fetch p.rest (codes ")")) _
          (match_fetch-Shorter p.rest b')' []) (λ r i. (omega (arith, j, a.0, i), a.1))))

  boolean_primary-Accepts : Parses (suc n) (boolean_primary condition)
  boolean_primary-Accepts s l =
      Ensures-bind (λ b. b ≡ true → Ensures (Shorter s) (skip_word s)) (Accepts s)
        (first_word_equal s (codes "(")) _ (first_word_equal-skip_word s b'(' [])
        (λ b f.
          if_cases (Ensures (Accepts s)) b (λ e. parenthesised-Accepts s l (f e))
            (λ e. predicate-Accepts s))

  boolean_factor-Accepts : Parses (suc n) (boolean_factor condition)
  unfolding render
  boolean_factor-Accepts s l =
      Ensures-bind (λ b. b ≡ true → Ensures (Shorter s) (skip_word s)) (Accepts s)
        (first_word_equal s (codes "not")) _ (first_word_equal-skip_word s b'n' (codes "ot"))
        (λ b. go b)
    where
      primary :
          (t : Bytes) → length t ≤ length s → Ensures (Accepts s) (boolean_primary condition t)
      primary t i = accepts_lem t s _ i (boolean_primary-Accepts t (omega (arith, i, l)))

      go :
          (b : Bool)
          → (b ≡ true → Ensures (Shorter s) (skip_word s))
          → Ensures (Accepts s) (
              (if b then skip_word s else ne_ok s) >>= λ t. boolean_primary condition t >>= λ p.
              ne_ok (parsed (if b then enclosed (codes "not") p.buf else p.buf) p.rest))
      go false f =
          Ensures-bind (Accepts s) (Accepts s) (boolean_primary condition s) _
            (primary s (omega arith)) (λ p a. a)
      go true f = Ensures-bind (Shorter s) (Accepts s) (skip_word s) _ (f refl) (λ t j.
          Ensures-bind (Accepts s) (Accepts s) (boolean_primary condition t) _
            (primary t (omega (arith, j)))
            (λ p a. (a.0, (negation a.1.0, ap (enclosed (codes "not")) a.1.1))))

  boolean_term-Accepts : Parses (suc n) (boolean_term condition (suc n))
  unfolding render
  boolean_term-Accepts =
      chained-Accepts (boolean_factor condition) (suc n) boolean_factor-Accepts b'a' (codes "nd")
        all_of and_lem
    where
      and_lem :
          (t : Tree) (ts : Trees)
          → render (all_of t ts) ≡ enclosed (codes "and") (render t ++ render_all ts)
      and_lem t ts = refl

search_condition-Parses : (n : ℕ) → Parses n (search_condition n)
unfolding search_condition render
search_condition-Parses zero s l = absurd (omega (arith, l))
search_condition-Parses (suc n) s l =
    chained-Accepts (boolean_term (search_condition n) (suc n)) (suc n)
      (boolean_term-Accepts (search_condition n) n (search_condition-Parses n)) b'o' (codes "r")
      any_of or_lem s l
  where
    or_lem :
        (t : Tree) (ts : Trees)
        → render (any_of t ts) ≡ enclosed (codes "or") (render t ++ render_all ts)
    or_lem t ts = refl

-- `search_condition` ends on every string, with fuel above the length of the string. Where it
-- succeeds without a word that overflows its buffer, it has read at least one byte, and the buffer
-- holds the rendering of a tree.
pub search_condition-Accepts :
    (s : Bytes) → Ensures (Accepts s) (search_condition (suc (length s)) s)
search_condition-Accepts s = search_condition-Parses (suc (length s)) s (omega arith)
