-- ===== src/Search/Written.antt =====
-- A comparison that is written out is read back.
use cadaver.Common.{
  ℕ, ◌+◌, ◌≤◌, ◌≡◌, refl, ap, ◌∙◌, Bool, true, false, ◌&&◌, not, [], ◌∷◌, ◌++◌, arith, length, All,
  leb, ◌==◌, if◌then◌else◌,
}
use cadaver.Common.Text.{Bytes, codes, streq, strcaseeq, tolower}
use cadaver.Search.{Result, ◌>>=◌, Parsed}
use cadaver.Search.Words.{Kind, Word, read_aword, first_word_equal, match_fetch, isalpha}
use cadaver.Search.Grammar.{
  parsed, predicate, comparison_predicate, contains_predicate, is_iden, compared, comparison,
  operator_translate, comparison_value, quoted_string, quoted_loop,
}
use cadaver.Search.Lexing.{read_aword-in_identifier, in_identifier}
use Result.{ne_ok, ne_error, overflow}

pub data Operator : Type 0 where
  equal greater_equal less_equal greater less unequal : Operator

abbrev pub spelled : Operator → Bytes
spelled equal = codes "="
spelled greater_equal = codes ">="
spelled less_equal = codes "<="
spelled greater = codes ">"
spelled less = codes "<"
spelled unequal = codes "<>"

abbrev pub xml_name : Operator → Bytes
xml_name equal = codes "eq"
xml_name greater_equal = codes "gte"
xml_name less_equal = codes "lte"
xml_name greater = codes "gt"
xml_name less = codes "lt"
xml_name unequal = codes "not"

-- A byte of a value that is neither a quotation mark nor a backslash.
abbrev pub is_plain : ℕ → Bool
is_plain d = not (d == b'\'') && not (d == b'\\')

quoted_loop_lem :
    (p : ℕ) (v t : Bytes)
    → (p == b'\\') ≡ false
    → All (λ d. is_plain d ≡ true) v
    → quoted_loop p (v ++ (b'\'' ∷ t)) ≡ ne_ok (parsed v t)
quoted_loop_lem p [] t e h = rw e refl
quoted_loop_lem p (d ∷ v) t e h = rw (quoted_loop_lem d v t (ground arith) h.1) (ground arith)

-- The value, from the blank in front of its quotation mark.
value_lem :
    (v t : Bytes)
    → All (λ d. is_plain d ≡ true) v
    → comparison_value (codes " '" ++ (v ++ (b'\'' ∷ t))) ≡ ne_ok (parsed v t)
unfolding comparison_value quoted_string first_word_equal match_fetch read_aword strcaseeq tolower
    streq
value_lem [] t h = refl
value_lem (d ∷ v) t h = rw (quoted_loop_lem d v t (ground arith) h.1) (ground arith)

operator_lem :
    (o : Operator) (t : Bytes) (column : Bytes)
    → (read_aword (b' ' ∷ (spelled o ++ (b' ' ∷ t))) >>= λ w.
        compared column w (operator_translate w.word))
      ≡ (comparison_value (b' ' ∷ t) >>= λ p.
          ne_ok (parsed (comparison (xml_name o) column p.buf) p.rest))
unfolding read_aword operator_translate streq strcaseeq tolower
operator_lem equal t column = refl
operator_lem greater_equal t column = refl
operator_lem less_equal t column = refl
operator_lem greater t column = refl
operator_lem less t column = refl
operator_lem unequal t column = refl

-- The text of a comparison with a quoted value.
abbrev pub written : Bytes → Operator → Bytes → Bytes → Bytes
written column o v t = column ++ (b' ' ∷ (spelled o ++ (codes " '" ++ (v ++ (b'\'' ∷ t)))))

-- A comparison of a property, whose name fits the buffer and is not the keyword `contains`, with a
-- quoted value without quotation marks and backslashes is read back with each of the operators `=`,
-- `<`, `<=`, `>`, `>=` and `<>`, and the string goes on behind it.
pub predicate-comparison :
    (c : ℕ) (w : Bytes) (o : Operator) (v t : Bytes)
    → isalpha c ≡ true
    → All (λ d. in_identifier d ≡ true) w
    → length w + 1 ≤ 256
    → strcaseeq (c ∷ w) (codes "contains") ≡ false
    → All (λ d. is_plain d ≡ true) v
    → predicate (written (c ∷ w) o v t) ≡ ne_ok (parsed (comparison (xml_name o) (c ∷ w) v) t)
unfolding predicate first_word_equal
predicate-comparison c w o v t a h l k p =
    ap (λ r. (r >>= λ u. ne_ok (strcaseeq u.word (codes "contains"))) >>= choose) word
    ∙ ap choose k
    ∙ ap
        (λ r. r >>= λ column.
          (if is_iden column.kind then read_aword column.rest else ne_error) >>= compare column)
        word
    ∙ operator_lem o (b'\'' ∷ (v ++ (b'\'' ∷ t))) (c ∷ w)
    ∙ ap (λ r. r >>= λ q. ne_ok (parsed (comparison (xml_name o) (c ∷ w) q.buf) q.rest))
        (value_lem v t p)
  where
    s : Bytes
    s = written (c ∷ w) o v t

    after : Bytes
    after = b' ' ∷ (spelled o ++ (codes " '" ++ (v ++ (b'\'' ∷ t))))

    choose : Bool → Result Parsed
    choose b = if b then contains_predicate s else comparison_predicate s

    compare : Word → Word → Result Parsed
    compare column operator = compared column.word operator (operator_translate operator.word)

    fits : leb (length w + 1) 256 ≡ true
    fits = ground (arith, l)

    column : Word
    column = record { kind = Kind.iden; word = c ∷ w; rest = after }

    word : read_aword s ≡ ne_ok column
    word =
        read_aword-in_identifier c w after a h refl
        ∙ ap (λ b. if b then ne_ok column else overflow) fits
