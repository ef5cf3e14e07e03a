-- ===== src/CommandLine/Total.antt =====
-- The loop of `parse_command` ends on every line.
use cadaver.CommandLine.{Words, parse_words, no_words, parse_command, add_token, proceed}
use cadaver.Commands.{Scope}
use cadaver.Common.{
  ℕ, zero, suc, ◌+◌, ◌<◌, ◌≡◌, Bool, List, Option, none, some, arith, length, refl,
}
use cadaver.Common.Text.{Bytes}
use cadaver.Tokenizer.Bounds.{gettoken_bounds}
use cadaver.Tokenizer.{gettoken}

module _ (bufsiz : ℕ) (glob : Scope → Bytes → Option (List Bytes)) (connected : Bool) where
  parse_words_total :
      (f : ℕ) (w : Words) (line : Bytes)
      → length line < f
      → (ts : List Bytes) × (parse_words bufsiz glob connected f w line ≡ some ts)
  unfolding parse_words
  parse_words_total zero w line h = elim h [ ]
  parse_words_total (suc f) w line h =
      go (gettoken bufsiz line) refl (λ v r. parse_words_total f v r)
    where
      go :
          (o : Option Bytes × Bytes)
          → gettoken bufsiz line ≡ o
          → ((v : Words) (r : Bytes)
              → length r < f
              → (ts : List Bytes) × (parse_words bufsiz glob connected f v r ≡ some ts))
          → (ts : List Bytes) × (proceed bufsiz glob connected w
                (parse_words bufsiz glob connected f)
                o
              ≡ some ts)
      go (none, rest) e ih = (w.tokens, refl)
      go (some t, rest) e ih =
          ih (add_token bufsiz glob connected w t) rest
            (omega (arith, gettoken_bounds bufsiz line e))

  -- Every line is split: the loop ends, whatever the patterns expand to.
  pub parse_command_total :
      (line : Bytes) → (ts : List Bytes) × (parse_command bufsiz glob connected line ≡ some ts)
  unfolding parse_command
  parse_command_total line = parse_words_total (length line + 1) no_words line (omega arith)
