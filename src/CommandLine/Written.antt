-- ===== src/CommandLine/Written.antt =====
-- Lines written with quotes are run with the words that were written.
use cadaver.CommandLine.{
  Words, has_glob_pattern, add_token, proceed, parse_words, no_words, run_words, run_parsed,
  execute_command, freed,
}
use cadaver.Commands.{Scope}
use cadaver.Common.{
  ℕ, zero, suc, ◌<◌, ◌≡◌, refl, ap, ◌∙◌, Bool, false, List, [], ◌∷◌, ◌++◌, Option, some, arith,
  length, All, append-nil, if_cases, nil_of_length, ◌==◌, append_assoc,
}
use cadaver.Common.Text.{Bytes}
use cadaver.Tokenizer.Bounds.{gettoken_bounds}
use cadaver.Tokenizer.RoundTrip.{enquote, gettoken-enquote, Ending, gettoken-Ending}

-- Each word between quotes and behind a space, and then the end of the line.
abbrev pub write_line : List Bytes → Bytes → Bytes
write_line [] end = end
write_line (t ∷ ts) end = b' ' ∷ enquote t (write_line ts end)

-- Words that fit the buffer and hold no pattern.
abbrev pub IsPlain : ℕ → Bytes → Type 0
IsPlain bufsiz t = (0 < length t) × (length t < bufsiz) × (has_glob_pattern t ≡ false)

module _ (bufsiz : ℕ) (glob : Scope → Bytes → Option (List Bytes)) (connected : Bool) where
  tokens-add_token :
      (w : Words) (t : Bytes)
      → has_glob_pattern t ≡ false
      → (add_token bufsiz glob connected w t).tokens ≡ w.tokens ++ t ∷ []
  unfolding add_token
  tokens-add_token w t h =
      if_cases (λ (v : Words). v.tokens ≡ w.tokens ++ t ∷ []) (length w.tokens == 0)
        (λ e. rw (nil_of_length w.tokens (ground arith))) (λ _. rw h)

  parse_words-word :
      (f : ℕ) (w : Words) (t rest : Bytes)
      → 0 < length t
      → length t < bufsiz
      → parse_words bufsiz glob connected (suc f) w (b' ' ∷ enquote t rest)
        ≡ parse_words bufsiz glob connected f (add_token bufsiz glob connected w t) rest
  unfolding parse_words
  parse_words-word f w t rest p l =
      ap (proceed bufsiz glob connected w (parse_words bufsiz glob connected f))
        (gettoken-enquote bufsiz (b' ' ∷ []) t rest (refl, tt) p l)

  parse_words-Ending :
      (f : ℕ) (w : Words) {end : Bytes}
      → 0 < bufsiz
      → Ending end
      → parse_words bufsiz glob connected (suc f) w end ≡ some w.tokens
  unfolding parse_words
  parse_words-Ending f w p e =
      ap (proceed bufsiz glob connected w (parse_words bufsiz glob connected f))
        (gettoken-Ending bufsiz [] p tt e)

  parse_words-write_line :
      (ts : List Bytes) (f : ℕ) (w : Words) {end : Bytes}
      → 0 < bufsiz
      → All (IsPlain bufsiz) ts
      → Ending end
      → length (write_line ts end) < f
      → parse_words bufsiz glob connected f w (write_line ts end) ≡ some (w.tokens ++ ts)
  parse_words-write_line ts zero w p h e l = elim l [ ]
  parse_words-write_line [] (suc f) w p h e l = rw append-nil (parse_words-Ending f w p e)
  parse_words-write_line (t ∷ ts) (suc f) w {end} p h e l =
      let word = gettoken-enquote bufsiz (b' ' ∷ []) t (write_line ts end) (refl, tt) h.0.0 h.0.1 in
      parse_words-word f w t _ h.0.0 h.0.1
      ∙ parse_words-write_line ts f _ p h.1 e (omega (arith, gettoken_bounds bufsiz _ word))
      ∙ rw (tokens-add_token w t h.0.2) (rw append_assoc)

  -- A line that holds words between quotes, and perhaps a comment, is run with just these words,
  -- whatever bytes they hold, if no word is empty, too long for the buffer or a pattern.
  pub execute_command-write_line :
      (ts : List Bytes) {end : Bytes}
      → 0 < bufsiz
      → All (IsPlain bufsiz) ts
      → Ending end
      → execute_command bufsiz glob connected (write_line ts end) ≡ some (run_words connected ts)
  unfolding execute_command
  execute_command-write_line ts {end} p h e =
      ap (run_parsed connected) (parse_words-write_line ts _ no_words p h e (omega arith))

-- The loop at the end of `execute_command` frees every word of the line but the last.
pub freed-leaks : (ts : List Bytes) (last : Bytes) → freed (ts ++ last ∷ []) ≡ ts
unfolding freed
freed-leaks [] last = refl
freed-leaks (t ∷ []) last = refl
freed-leaks (t ∷ u ∷ ts) last = ap (◌∷◌ t) (freed-leaks (u ∷ ts) last)
