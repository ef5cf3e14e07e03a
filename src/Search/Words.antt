-- ===== src/Search/Words.antt =====
-- The words of a search condition: `read_aword` and the functions that look at one word.
use cadaver.Common.{
  ℕ, ◌+◌, Bool, true, false, ◌&&◌, ◌||◌, [], ◌∷◌, leb, ◌==◌, if◌then◌else◌, length,
}
use cadaver.Common.Text.{Bytes, codes, streq, strcaseeq}
use cadaver.Search.{Result, ◌>>=◌}
use Result.{ne_ok, ne_error, overflow}

pub data Kind : Type 0 where
  quot comma lpar rpar eq le lt ge gt neq iden integer unknown endbuf : Kind

-- The C locale's classes.
abbrev pub isspace : ℕ → Bool
isspace c = c == b' ' || leb 9 c && leb c 13

abbrev pub isdigit : ℕ → Bool
isdigit c = leb b'0' c && leb c b'9'

abbrev pub isalpha : ℕ → Bool
isalpha c = leb b'A' c && leb c b'Z' || leb b'a' c && leb c b'z'

abbrev pub isalnum : ℕ → Bool
isalnum c = isalpha c || isdigit c

-- The type of a word, the word, and the string after it.
pub record Word : Type 0 where
  pub kind : Kind
  pub word : Bytes
  pub rest : Bytes

abbrev pub wordlen : ℕ
wordlen = 256

-- The longest prefix of bytes in the class, and what follows.
abbrev pub span : (ℕ → Bool) → Bytes → Bytes × Bytes
span p [] = ([], [])
span p (c ∷ s) = let r = span p s in if p c then (c ∷ r.0, r.1) else ([], c ∷ s)

abbrev pub skip_space : Bytes → Bytes
skip_space s = (span isspace s).1

-- The do-while loops, which copy the byte at hand first. A word buffer holds `wordlen` bytes and
-- the NUL.
abbrev pub fetch : Kind → ℕ → Bytes × Bytes → Result Word
fetch k c w =
    if leb (length w.0 + 1) wordlen
    then ne_ok (record { kind = k; word = c ∷ w.0; rest = w.1 })
    else overflow

abbrev pub symbol : ℕ → Bytes → Word
symbol c s =
    if c == b'\''
    then record { kind = Kind.quot; word = c ∷ []; rest = s }
    else if c == b','
    then record { kind = Kind.comma; word = c ∷ []; rest = s }
    else if c == b'('
    then record { kind = Kind.lpar; word = c ∷ []; rest = s }
    else if c == b')'
    then record { kind = Kind.rpar; word = c ∷ []; rest = s }
    else if c == b'>'
    then record { kind = Kind.gt; word = c ∷ []; rest = s }
    else if c == b'<'
    then record { kind = Kind.lt; word = c ∷ []; rest = s }
    else if c == b'='
    then record { kind = Kind.eq; word = c ∷ []; rest = s }
    else record { kind = Kind.unknown; word = c ∷ []; rest = s }

-- The symbols of two bytes come first.
abbrev pub symbols : ℕ → Bytes → Word
symbols c [] = symbol c []
symbols c (d ∷ s) =
    if c == b'>' && d == b'='
    then record { kind = Kind.ge; word = codes ">="; rest = s }
    else if c == b'<' && d == b'='
    then record { kind = Kind.le; word = codes "<="; rest = s }
    else if c == b'<' && d == b'>'
    then record { kind = Kind.neq; word = codes "<>"; rest = s }
    else symbol c (d ∷ s)

-- `s` is the whole string, where the pointer stays at the end of the buffer.
abbrev pub scan_word : Bytes → Bytes → Result Word
scan_word s [] = ne_ok (record { kind = Kind.endbuf; word = []; rest = s })
scan_word s (c ∷ t) =
    if isalpha c
    then fetch Kind.iden c (span (λ d. isalnum d || d == b'_') t)
    else if c == b'+' || c == b'-' || isdigit c
    then fetch Kind.integer c (span isdigit t)
    else ne_ok (symbols c t)

unfoldable pub read_aword : Bytes → Result Word
read_aword s = scan_word s (skip_space s)

unfoldable pub first_word_equal : Bytes → Bytes → Result Bool
first_word_equal s word_to_compare = do w ← read_aword s; ne_ok (strcaseeq w.word word_to_compare)

abbrev pub is_integer : Kind → Bool
is_integer Kind.integer = true
is_integer _ = false

unfoldable pub first_word_integer : Bytes → Result Bool
first_word_integer s = do w ← read_aword s; ne_ok (is_integer w.kind)

-- The string after the first word, which has to be the one expected, in its case.
unfoldable pub match_fetch : Bytes → Bytes → Result Bytes
match_fetch s str_expected = do
  w ← read_aword s
  if streq w.word str_expected then ne_ok w.rest else ne_error
