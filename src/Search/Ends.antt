-- ===== src/Search/Ends.antt =====
-- The words and values of a condition: each function ends, and none moves back.
use cadaver.Common.{
  ℕ, ◌+◌, ◌≤◌, ◌<◌, ◌≡◌, ◌⊎◌, inl, inr, refl, Bool, true, false, ◌||◌, [], ◌∷◌, arith, not, leb,
  length, if_cases, if◌then◌else◌, ◌==◌,
}
use cadaver.Common.Text.{Bytes, codes, streq, strcaseeq}
use cadaver.Search.{Result, ◌>>=◌, Parsed, Ensures, Ensures-bind}
use cadaver.Search.Words.{
  Kind, Word, read_aword, first_word_equal, first_word_integer, match_fetch, is_integer, skip_space,
  span, isspace, wordlen, scan_word, fetch, symbols, isalpha, isdigit, isalnum,
}
use cadaver.Search.Grammar.{
  quoted_string, quoted_loop, word_string, word_loop, word_from, text_value, comparison_value,
  number, skip_word, first_of,
}
use Result.{ne_ok, ne_error, overflow, no_fuel}

span-length : (p : ℕ → Bool) (s : Bytes) → length (span p s).1 ≤ length s
span-length p [] = omega arith
span-length p (c ∷ s) = ground (arith, span-length p s)

-- Only at the end of the buffer is nothing read.
abbrev pub Consumes : Bytes → Word → Type 0
Consumes s w =
    (length w.rest ≤ length s)
    × ((w.word ≡ []) × (w.kind ≡ Kind.endbuf) ⊎ (length w.rest < length s))

fetch-Consumes :
    (s : Bytes) (k : Kind) (c : ℕ) (w : Bytes × Bytes)
    → length w.1 < length s
    → Ensures (Consumes s) (fetch k c w)
fetch-Consumes s k c w h =
    if_cases (Ensures (Consumes s)) (leb (length w.0 + 1) wordlen) (λ e. (omega (arith, h), inr h))
      (λ e. tt)

symbols-length : (c : ℕ) (t : Bytes) → length (symbols c t).rest ≤ length t
symbols-length c [] = ground arith
symbols-length c (d ∷ t) = ground arith

scan_word-Consumes : (s r : Bytes) → length r ≤ length s → Ensures (Consumes s) (scan_word s r)
scan_word-Consumes s [] h = (omega arith, inl (refl, refl))
scan_word-Consumes s (c ∷ t) h =
    if_cases (Ensures (Consumes s)) (isalpha c)
      (λ e.
        fetch-Consumes s Kind.iden c _
          (omega (arith, h, span-length (λ d. isalnum d || d == b'_') t)))
      (λ e.
        if_cases (Ensures (Consumes s)) (c == b'+' || c == b'-' || isdigit c)
          (λ f. fetch-Consumes s Kind.integer c _ (omega (arith, h, span-length isdigit t)))
          (λ f. (omega (arith, h, symbols-length c t), inr (omega (arith, h, symbols-length c t)))))

pub read_aword-Consumes : (s : Bytes) → Ensures (Consumes s) (read_aword s)
unfolding read_aword
read_aword-Consumes s = scan_word-Consumes s (skip_space s) (span-length isspace s)

abbrev pub Shorter : Bytes → Bytes → Type 0
Shorter s t = length t < length s

nil_caseless : (k : ℕ) (ks w : Bytes) → w ≡ [] → strcaseeq w (k ∷ ks) ≡ true → ⊥
unfolding strcaseeq
nil_caseless k ks [] q e = ground arith
nil_caseless k ks (c ∷ w) q e = ground arith

nil_lem : (k : ℕ) (ks w : Bytes) → w ≡ [] → streq w (k ∷ ks) ≡ true → ⊥
unfolding streq
nil_lem k ks [] q e = ground arith
nil_lem k ks (c ∷ w) q e = ground arith

-- Where the keyword comes next, reading it moves on.
found_lem :
    (s : Bytes) (k : ℕ) (ks : Bytes) (r : Result Word)
    → Ensures (Consumes s) r
    → Ensures
        (λ b. b ≡ true → Ensures (Shorter s) (r >>= λ w. ne_ok w.rest))
        (r >>= λ w. ne_ok (strcaseeq w.word (k ∷ ks)))
unfolding strcaseeq
found_lem s k ks (ne_ok w) h =
    λ e. elim h.1 [ inl q ↦ absurd (nil_caseless k ks w.word q.0 e) | inr l ↦ l ]
found_lem s k ks ne_error h = tt
found_lem s k ks overflow h = tt
found_lem s k ks no_fuel h = h

pub first_word_equal-skip_word :
    (s : Bytes) (k : ℕ) (ks : Bytes)
    → Ensures (λ b. b ≡ true → Ensures (Shorter s) (skip_word s)) (first_word_equal s (k ∷ ks))
unfolding first_word_equal
first_word_equal-skip_word s k ks = found_lem s k ks (read_aword s) (read_aword-Consumes s)

pub match_fetch-Shorter :
    (s : Bytes) (k : ℕ) (ks : Bytes) → Ensures (Shorter s) (match_fetch s (k ∷ ks))
unfolding match_fetch streq
match_fetch-Shorter s k ks =
    Ensures-bind (Consumes s) (Shorter s) (read_aword s) _ (read_aword-Consumes s) (λ w h.
      if_cases (Ensures (Shorter s)) (streq w.word (k ∷ ks))
        (λ e. elim h.1 [ inl q ↦ absurd (nil_lem k ks w.word q.0 e) | inr l ↦ l ]) (λ e. tt))

abbrev pub Within : Bytes → Parsed → Type 0
Within s p = length p.rest ≤ length s

weaken_lem :
    (t s : Bytes) (r : Result Parsed)
    → length t ≤ length s
    → Ensures (Within t) r
    → Ensures (Within s) r
weaken_lem t s (ne_ok p) h e = omega (arith, h, e)
weaken_lem t s ne_error h e = tt
weaken_lem t s overflow h e = tt
weaken_lem t s no_fuel h e = e

quoted_loop-Within : (c : ℕ) (s : Bytes) → Ensures (Within s) (quoted_loop c s)
quoted_loop-Within c [] = tt
quoted_loop-Within c (d ∷ s) =
    if_cases (Ensures (Within (d ∷ s))) (not (d == b'\'') || c == b'\\')
      (λ e.
        Ensures-bind (Within s) (Within (d ∷ s)) (quoted_loop d s)
          (λ p. ne_ok (record { buf = d ∷ p.buf; rest = p.rest })) (quoted_loop-Within d s)
          (λ p h. omega (arith, h)))
      (λ e. omega arith)

word_loop-Within : (s : Bytes) → Within s (word_loop s)
word_loop-Within [] = omega arith
word_loop-Within (c ∷ s) = ground (arith, word_loop-Within s)

quoted_string-Within : (s : Bytes) → Ensures (Within s) (quoted_string s)
unfolding quoted_string
quoted_string-Within s =
    Ensures-bind (Shorter s) (Within s) (match_fetch s (codes "'"))
      (λ t. quoted_loop (first_of t) t) (match_fetch-Shorter s b'\'' [])
      (λ t h. weaken_lem t s _ (omega (arith, h)) (quoted_loop-Within (first_of t) t))

word_string-Within : (s : Bytes) → Ensures (Within s) (word_string s)
unfolding word_string
word_string-Within s = weaken_lem (skip_space s) s _ (span-length isspace s) (go (skip_space s))
  where
    go : (t : Bytes) → Ensures (Within t) (word_from t)
    go [] = tt
    go (c ∷ t) =
        if_cases (Ensures (Within (c ∷ t))) (c == b')') (λ e. tt) (λ e. word_loop-Within (c ∷ t))

-- A result that is only known to end.
abbrev pub Ends {ℓ} : {A : Type ℓ} → Result A → Type 0
Ends r = Ensures (λ a. Unit) r

pub first_word-Ends :
    {A : Type 0} (s : Bytes) (f : Word → A) → Ends (read_aword s >>= λ w. ne_ok (f w))
first_word-Ends s f =
    Ensures-bind (Consumes s) (λ a. Unit) (read_aword s) _ (read_aword-Consumes s) (λ w h. tt)

pub text_value-Within : (s : Bytes) → Ensures (Within s) (text_value s)
unfolding text_value first_word_equal
text_value-Within s =
    Ensures-bind (λ a. Unit) (Within s) (first_word_equal s (codes "'"))
      (λ quoted. if quoted then quoted_string s else word_string s)
      (first_word-Ends s (λ w. strcaseeq w.word (codes "'")))
      (λ b h.
        if_cases (Ensures (Within s)) b (λ e. quoted_string-Within s) (λ e. word_string-Within s))

number-Within : (s : Bytes) → Ensures (Within s) (number s)
unfolding number
number-Within s =
    Ensures-bind (Consumes s) (Within s) (read_aword s)
      (λ w. ne_ok (record { buf = w.word; rest = w.rest })) (read_aword-Consumes s) (λ w h. h.0)

pub comparison_value-Within : (s : Bytes) → Ensures (Within s) (comparison_value s)
unfolding comparison_value first_word_equal first_word_integer
comparison_value-Within s =
    Ensures-bind (λ a. Unit) (Within s) (first_word_equal s (codes "'")) (λ quoted. rest quoted)
      (first_word-Ends s (λ w. strcaseeq w.word (codes "'"))) (λ b h. go b)
  where
    pick : Bool → Bool → Result Parsed
    pick quoted integer =
        if quoted then quoted_string s else if integer then number s else word_string s

    rest : Bool → Result Parsed
    rest quoted = (if quoted then ne_ok false else first_word_integer s) >>= pick quoted

    go : (b : Bool) → Ensures (Within s) (rest b)
    go true = quoted_string-Within s
    go false =
        Ensures-bind (λ a. Unit) (Within s) (first_word_integer s) (pick false)
          (first_word-Ends s (λ w. is_integer w.kind))
          (λ i h.
            if_cases (Ensures (Within s)) i (λ e. number-Within s) (λ e. word_string-Within s))
