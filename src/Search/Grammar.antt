-- ===== src/Search/Grammar.antt =====
-- The grammar of a search condition, function by function. `*string_parsed` is the argument, and
-- comes back with the buffer.
use cadaver.Common.{
  ℕ, zero, suc, Bool, true, false, ◌||◌, not, [], ◌∷◌, ◌++◌, Option, none, some, ◌==◌,
  if◌then◌else◌,
}
use cadaver.Common.Text.{Bytes, codes, streq, strcaseeq}
use cadaver.Search.{Result, ◌>>=◌, Parsed}
use cadaver.Search.Words.{
  Kind, Word, read_aword, first_word_equal, first_word_integer, match_fetch, skip_space,
}
use Result.{ne_ok, ne_error, no_fuel}

abbrev pub parsed : Bytes → Bytes → Parsed
parsed buf rest = record { buf = buf; rest = rest }

-- One byte more in front of what is parsed.
abbrev pub before : ℕ → Result Parsed → Result Parsed
before c r = r >>= λ p. ne_ok (parsed (c ∷ p.buf) p.rest)

-- The loop, with the previous byte: a quotation mark behind a backslash is text, and both are kept.
abbrev pub quoted_loop : ℕ → Bytes → Result Parsed
quoted_loop previous_char [] = ne_error
quoted_loop previous_char (c ∷ s) =
    let more = quoted_loop c s in
    if not (c == b'\'') || previous_char == b'\\' then before c more else ne_ok (parsed [] s)

-- At the first byte, `previous_char` is that byte.
abbrev pub first_of : Bytes → ℕ
first_of [] = 0
first_of (c ∷ s) = c

unfoldable pub quoted_string : Bytes → Result Parsed
quoted_string s = do t ← match_fetch s (codes "'"); quoted_loop (first_of t) t

abbrev pub word_loop : Bytes → Parsed
word_loop [] = parsed [] []
word_loop (c ∷ s) =
    let more = word_loop s in
    if c == b' ' || c == b'\t' || c == b')'
    then parsed [] (c ∷ s)
    else parsed (c ∷ more.buf) more.rest

abbrev pub word_from : Bytes → Result Parsed
word_from [] = ne_error
word_from (c ∷ s) = if c == b')' then ne_error else ne_ok (word_loop (c ∷ s))

unfoldable pub word_string : Bytes → Result Parsed
word_string s = word_from (skip_space s)

-- A quoted string where a quotation mark comes first, and else a word string.
unfoldable pub text_value : Bytes → Result Parsed
text_value s = do
  quoted ← first_word_equal s (codes "'")
  if quoted then quoted_string s else word_string s

unfoldable pub number : Bytes → Result Parsed
number s = do w ← read_aword s; ne_ok (parsed w.word w.rest)

unfoldable pub comparison_value : Bytes → Result Parsed
comparison_value s = do
  quoted ← first_word_equal s (codes "'")
  integer ← (if quoted then ne_ok false else first_word_integer s)
  if quoted then quoted_string s else if integer then number s else word_string s

unfoldable pub operator_translate : Bytes → Option Bytes
operator_translate operator =
    if streq operator (codes "=")
    then some (codes "eq")
    else if streq operator (codes ">=")
    then some (codes "gte")
    else if streq operator (codes "<=")
    then some (codes "lte")
    else if streq operator (codes ">")
    then some (codes "gt")
    else if streq operator (codes "<")
    then some (codes "lt")
    else if streq operator (codes "!=")
    then some (codes "not")
    else if streq operator (codes "<>")
    then some (codes "not")
    else if streq operator (codes "like")
    then some (codes "like")
    else none

abbrev pub newline : Bytes
newline = 10 ∷ []

abbrev pub opening : Bytes → Bytes
opening name = codes "<D:" ++ name ++ codes ">" ++ newline

abbrev pub closing : Bytes → Bytes
closing name = codes "</D:" ++ name ++ codes ">" ++ newline

-- The element of a comparison.
abbrev pub comparison : Bytes → Bytes → Bytes → Bytes
comparison xml_operator column_name value =
    opening xml_operator
    ++ (codes "<D:prop><D:"
        ++ column_name
        ++ codes "/></D:prop>"
        ++ newline
        ++ (codes "<D:literal>"
            ++ value
            ++ codes "</D:literal>"
            ++ newline
            ++ closing xml_operator))

abbrev pub containing : Bytes → Bytes
containing value = opening (codes "contains") ++ value ++ closing (codes "contains")

unfoldable pub contains_predicate : Bytes → Result Parsed
contains_predicate s = do
  t ← match_fetch s (codes "contains")
  p ← text_value t
  ne_ok (parsed (containing p.buf) p.rest)

-- A column name.
abbrev pub is_iden : Kind → Bool
is_iden Kind.iden = true
is_iden _ = false

-- The value, by the operator as it is written.
abbrev pub literal : Bytes → Bytes → Result Parsed
literal operator s = if strcaseeq operator (codes "like") then text_value s else comparison_value s

abbrev pub compared : Bytes → Word → Option Bytes → Result Parsed
compared column_name operator none = ne_error
compared column_name operator (some xml_operator) = do
  p ← literal operator.word operator.rest
  ne_ok (parsed (comparison xml_operator column_name p.buf) p.rest)

abbrev pub comparison_predicate : Bytes → Result Parsed
comparison_predicate s = do
  column ← read_aword s
  operator ← (if is_iden column.kind then read_aword column.rest else ne_error)
  compared column.word operator (operator_translate operator.word)

unfoldable pub predicate : Bytes → Result Parsed
predicate s = do
  contains ← first_word_equal s (codes "contains")
  if contains then contains_predicate s else comparison_predicate s

-- The string after a keyword that `first_word_equal` has found.
abbrev pub skip_word : Bytes → Result Bytes
skip_word s = do w ← read_aword s; ne_ok w.rest

abbrev pub enclosed : Bytes → Bytes → Bytes
enclosed name buf = opening name ++ buf ++ closing name

-- The while loops of `search_condition` and `boolean_term`: `parse` as long as the keyword comes next.
abbrev pub chain : (Bytes → Result Parsed) → Bytes → ℕ → Bytes → Result Parsed
chain parse keyword zero s = no_fuel
chain parse keyword (suc n) s = first_word_equal s keyword >>= λ again. elim again [
  | true ↦ skip_word s >>= λ t.
      parse t >>= λ p. chain parse keyword n p.rest >>= λ q. ne_ok (parsed (p.buf ++ q.buf) q.rest)
  | false ↦ ne_ok (parsed [] s)
]

-- One operand, or all of them in one element, where the keyword follows the first.
abbrev pub chained : (Bytes → Result Parsed) → Bytes → ℕ → Bytes → Result Parsed
chained parse keyword n s = do
  p ← parse s
  more ← first_word_equal p.rest keyword
  q ← chain parse keyword n p.rest
  ne_ok (parsed (if more then enclosed keyword (p.buf ++ q.buf) else p.buf) q.rest)

abbrev pub parenthesised : (Bytes → Result Parsed) → Bytes → Result Parsed
parenthesised condition s = do
  t ← skip_word s
  p ← condition t
  after ← match_fetch p.rest (codes ")")
  ne_ok (parsed p.buf after)

-- `condition` parses what stands in parentheses.
abbrev pub boolean_primary : (Bytes → Result Parsed) → Bytes → Result Parsed
boolean_primary condition s = do
  nested ← first_word_equal s (codes "(")
  if nested then parenthesised condition s else predicate s

abbrev pub boolean_factor : (Bytes → Result Parsed) → Bytes → Result Parsed
boolean_factor condition s = do
  negated ← first_word_equal s (codes "not")
  t ← (if negated then skip_word s else ne_ok s)
  p ← boolean_primary condition t
  ne_ok (parsed (if negated then enclosed (codes "not") p.buf else p.buf) p.rest)

abbrev pub boolean_term : (Bytes → Result Parsed) → ℕ → Bytes → Result Parsed
boolean_term condition n s = chained (boolean_factor condition) (codes "and") n s

-- The fuel bounds the depth of the parentheses and the turns of each loop.
unfoldable pub search_condition : ℕ → Bytes → Result Parsed
search_condition zero s = no_fuel
search_condition (suc n) s =
    chained (boolean_term (search_condition n) (suc n)) (codes "or") (suc n) s
