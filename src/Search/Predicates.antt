-- ===== src/Search/Predicates.antt =====
-- A predicate of a condition: it ends, moves on, and writes a leaf of a tree.
use cadaver.Common.{
  ◌≤◌, ◌<◌, ◌≡◌, refl, sym, ap, ◌∙◌, inl, inr, Bool, true, false, Option, none, some, arith, length,
  if_cases, if◌then◌else◌,
}
use cadaver.Common.Text.{Bytes, codes, strcaseeq}
use cadaver.Search.{Result, ◌>>=◌, Parsed, Ensures, Ensures-bind}
use cadaver.Search.Words.{Word, read_aword, first_word_equal, match_fetch}
use cadaver.Search.Grammar.{
  parsed, text_value, predicate, contains_predicate, comparison_predicate, compared, literal,
  is_iden, operator_translate, comparison, containing,
}
use cadaver.Search.Ends.{
  Consumes, read_aword-Consumes, Shorter, Within, first_word-Ends, match_fetch-Shorter,
  text_value-Within, comparison_value-Within,
}
use cadaver.Search.Trees.{Tree, render}
use Tree.{compare, contains}
use Result.{ne_ok, ne_error, overflow, no_fuel}

-- At least one byte is read, and a tree is written.
abbrev pub Accepts : Bytes → Parsed → Type 0
Accepts s p = (length p.rest < length s) × ((t : Tree) × (p.buf ≡ render t))

pub accepts_lem :
    (t s : Bytes) (r : Result Parsed)
    → length t ≤ length s
    → Ensures (Accepts t) r
    → Ensures (Accepts s) r
accepts_lem t s (ne_ok p) h e = (omega (arith, h, e.0), e.1)
accepts_lem t s ne_error h e = tt
accepts_lem t s overflow h e = tt
accepts_lem t s no_fuel h e = e

contains_predicate-Accepts : (s : Bytes) → Ensures (Accepts s) (contains_predicate s)
unfolding contains_predicate render
contains_predicate-Accepts s =
    Ensures-bind (Shorter s) (Accepts s) (match_fetch s (codes "contains"))
      (λ t. text_value t >>= λ p. ne_ok (parsed (containing p.buf) p.rest))
      (match_fetch-Shorter s b'c' (codes "ontains"))
      (λ t h.
        Ensures-bind (Within t) (Accepts s) (text_value t)
          (λ p. ne_ok (parsed (containing p.buf) p.rest)) (text_value-Within t)
          (λ p i. (omega (arith, h, i), (contains p.buf, refl))))

literal-Within : (operator s : Bytes) → Ensures (Within s) (literal operator s)
literal-Within operator s =
    if_cases (Ensures (Within s)) (strcaseeq operator (codes "like")) (λ e. text_value-Within s)
      (λ e. comparison_value-Within s)

compared-Accepts :
    (s column : Bytes) (w : Word) (o : Option Bytes)
    → length w.rest < length s
    → Ensures (Accepts s) (compared column w o)
unfolding render
compared-Accepts s column w none h = tt
compared-Accepts s column w (some x) h =
    Ensures-bind (Within w.rest) (Accepts s) (literal w.word w.rest)
      (λ p. ne_ok (parsed (comparison x column p.buf) p.rest)) (literal-Within w.word w.rest)
      (λ p i. (omega (arith, h, i), (compare x column p.buf, refl)))

iden_lem : (s : Bytes) (w : Word) → is_iden w.kind ≡ true → Consumes s w → Shorter s w.rest
iden_lem s w e h = elim h.1 [ inl q ↦ absurd (clash (sym e ∙ ap is_iden q.1)) | inr l ↦ l ]
  where
    clash : true ≡ false → ⊥
    clash e = ground arith

comparison_predicate-Accepts : (s : Bytes) → Ensures (Accepts s) (comparison_predicate s)
comparison_predicate-Accepts s =
    Ensures-bind (Consumes s) (Accepts s) (read_aword s) after (read_aword-Consumes s)
      (λ w h. go w (is_iden w.kind) refl h)
  where
    next : Word → Word → Result Parsed
    next column operator = compared column.word operator (operator_translate operator.word)

    after : Word → Result Parsed
    after column =
        (if is_iden column.kind then read_aword column.rest else ne_error) >>= next column

    go :
        (w : Word) (b : Bool)
        → is_iden w.kind ≡ b
        → Consumes s w
        → Ensures (Accepts s) ((if b then read_aword w.rest else ne_error) >>= next w)
    go w false e h = tt
    go w true e h =
        Ensures-bind (Consumes w.rest) (Accepts s) (read_aword w.rest) (next w)
          (read_aword-Consumes w.rest)
          (λ v i.
            compared-Accepts s w.word v (operator_translate v.word)
              (omega (arith, iden_lem s w e h, i.0)))

pub predicate-Accepts : (s : Bytes) → Ensures (Accepts s) (predicate s)
unfolding predicate first_word_equal
predicate-Accepts s =
    Ensures-bind (λ a. Unit) (Accepts s) (first_word_equal s (codes "contains"))
      (λ b. if b then contains_predicate s else comparison_predicate s)
      (first_word-Ends s (λ w. strcaseeq w.word (codes "contains")))
      (λ b h.
        if_cases (Ensures (Accepts s)) b (λ e. contains_predicate-Accepts s)
          (λ e. comparison_predicate-Accepts s))
