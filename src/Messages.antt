-- ===== src/Messages.antt =====
-- What the commands say: `format_time` of src/utils.c, and `out_result` and `out_handle` of
-- src/commands.c.
pub mod Age
mod Tests
use cadaver.Common.{
  ℕ, suc, ◌+◌, Bool, true, false, ◌&&◌, ◌||◌, List, [], ◌∷◌, Option, none, some, ltb, ◌==◌,
  if◌then◌else◌,
}
use cadaver.Common.Text.{Bytes, codes}

-- A `time_t` or a `long`; `negsuc n` is -(n + 1).
pub data ℤ : Type 0 where
  pos negsuc : ℕ → ℤ

abbrev pub pos_part : ℤ → ℕ
pos_part (pos n) = n
pos_part (negsuc n) = 0

abbrev pub neg_part : ℤ → ℕ
neg_part (pos n) = 0
neg_part (negsuc n) = suc n

-- `a + k < b`, for the sums that the code compares.
abbrev pub ltb_plus : ℤ → ℕ → ℤ → Bool
ltb_plus a k b = ltb (pos_part a + k + neg_part b) (pos_part b + neg_part a)

-- Half a year of 30 days a month, and an hour.
abbrev pub half_year : ℕ
half_year = 15_552_000

abbrev pub hour : ℕ
hour = 3600

-- The test for a time that is old or in the future. The sums are taken without overflow.
abbrev pub shows_year : ℤ → ℤ → Bool
shows_year current_time when =
    ltb_plus when half_year current_time || ltb_plus current_time hour when

abbrev pub unknown_time : Bytes
unknown_time = codes "  (unknown) "

abbrev pub is_unknown : ℤ → Bool
is_unknown (pos n) = false
is_unknown (negsuc n) = n == 0

abbrev pub or_marks : Option Bytes → Bytes
or_marks none = codes "???"
or_marks (some text) = text

-- `strftime` is `localtime` and `strftime` into 256 bytes, with `none` where one of them fails.
unfoldable pub format_time : (Bytes → ℤ → Option Bytes) → ℤ → ℤ → Bytes
format_time strftime current_time when =
    if is_unknown when
    then unknown_time
    else or_marks (
        strftime (if shows_year current_time when then codes "%b %e  %Y" else codes "%b %e %H:%M")
          when)

-- The values that neon's requests return, with the place of a redirection where there is one.
pub data Ret : Type 0 where
  ne_ok ne_error ne_lookup ne_auth ne_proxyauth ne_connect ne_timeout ne_failed ne_retry : Ret
  ne_redirect : Option Bytes → Ret

pub data ResultLine : Type 0 where
  succeeded authentication_failed could_not_connect timed_out failed : ResultLine
  redirect_to : Bytes → ResultLine

unfoldable pub out_result : Ret → ResultLine
out_result ne_ok = succeeded
out_result ne_auth = authentication_failed
out_result ne_proxyauth = authentication_failed
out_result ne_connect = could_not_connect
out_result ne_timeout = timed_out
out_result (ne_redirect (some dest)) = redirect_to dest
out_result (ne_redirect none) = failed
out_result ne_error = failed
out_result ne_lookup = failed
out_result ne_failed = failed
out_result ne_retry = failed

abbrev pub is_ok : Ret → Bool
is_ok ne_ok = true
is_ok _ = false

unfoldable pub out_handle : Ret → ResultLine × Bool
unfolding out_result
out_handle ret = (out_result ret, is_ok ret)
