-- ===== src/Search/Lexing.antt =====
-- Which words `read_aword` reads.
use cadaver.Common.{
  ℕ, ◌+◌, ◌≡◌, refl, ap, ◌∙◌, Bool, true, false, ◌||◌, [], ◌∷◌, ◌++◌, arith, not, length, All, leb,
  ◌==◌, if_cases, if◌then◌else◌,
}
use cadaver.Common.Text.{Bytes, codes, streq}
use cadaver.Search.{Result, Ensures}
use cadaver.Search.Words.{
  Kind, read_aword, skip_space, span, isspace, scan_word, fetch, symbols, isalpha, isdigit, isalnum,
  wordlen,
}
use Result.{ne_ok, overflow}

abbrev pub in_identifier : ℕ → Bool
in_identifier d = isalnum d || d == b'_'

-- The string does not go on with a byte of an identifier.
abbrev pub stops : Bytes → Bool
stops [] = true
stops (c ∷ s) = not (in_identifier c)

span_lem :
    (w t : Bytes)
    → All (λ d. in_identifier d ≡ true) w
    → stops t ≡ true
    → span in_identifier (w ++ t) ≡ (w, t)
span_lem [] [] h e = refl
span_lem [] (c ∷ t) h e = ground arith
span_lem (d ∷ w) t h e = rw (h.0, span_lem w t h.1 e) refl

-- An identifier is read whole: 256 bytes of it fill the buffer, and a longer one overflows it.
pub read_aword-in_identifier :
    (c : ℕ) (w t : Bytes)
    → isalpha c ≡ true
    → All (λ d. in_identifier d ≡ true) w
    → stops t ≡ true
    → read_aword (c ∷ w ++ t) ≡ (
        if leb (length w + 1) 256
        then ne_ok (record { kind = Kind.iden; word = c ∷ w; rest = t })
        else overflow)
unfolding read_aword
read_aword-in_identifier c w t a h e =
    ap (scan_word (c ∷ w ++ t)) skip ∙ letter ∙ ap (fetch Kind.iden c) (span_lem w t h e)
  where
    space : isspace c ≡ false
    space = ground arith

    skip : skip_space (c ∷ w ++ t) ≡ c ∷ w ++ t
    skip = ground (arith, space)

    letter : scan_word (c ∷ w ++ t) (c ∷ w ++ t) ≡ fetch Kind.iden c (span in_identifier (w ++ t))
    letter = rw a refl

-- No word that is read is `!=`, which `operator_translate` knows.
pub read_aword-streq : (s : Bytes) → Ensures (λ w. streq w.word (codes "!=") ≡ false) (read_aword s)
unfolding read_aword streq
read_aword-streq s = go (skip_space s)
  where
    symbols_lem : (c : ℕ) (t : Bytes) → streq (symbols c t).word (codes "!=") ≡ false
    symbols_lem c [] = ground arith
    symbols_lem c (d ∷ t) = ground arith

    fetch_lem :
        (k : Kind) (c : ℕ) (w : Bytes × Bytes)
        → (c == b'!') ≡ false
        → Ensures (λ w. streq w.word (codes "!=") ≡ false) (fetch k c w)
    fetch_lem k c w h =
        if_cases (Ensures (λ w. streq w.word (codes "!=") ≡ false)) (leb (length w.0 + 1) wordlen)
          (λ e. rw h refl) (λ e. tt)

    go : (t : Bytes) → Ensures (λ w. streq w.word (codes "!=") ≡ false) (scan_word s t)
    go [] = refl
    go (c ∷ t) =
        if_cases (Ensures (λ w. streq w.word (codes "!=") ≡ false)) (isalpha c)
          (λ e. fetch_lem Kind.iden c (span in_identifier t) (ground arith))
          (λ e.
            if_cases (Ensures (λ w. streq w.word (codes "!=") ≡ false))
              (c == b'+' || c == b'-' || isdigit c)
              (λ f. fetch_lem Kind.integer c (span isdigit t) (ground arith))
              (λ f. symbols_lem c t))
