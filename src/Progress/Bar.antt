-- ===== src/Progress/Bar.antt =====
-- The progress bar of src/cadaver.c: `pretty_progress_bar` with the time of its last update, and
-- `sub_timeval`.
use cadaver.Common.{
  ℕ, zero, suc, ◌+◌, ◌-◌, Bool, ◌&&◌, ◌||◌, [], ◌∷◌, Option, none, some, ltb, ◌==◌, if◌then◌else◌,
}
use cadaver.Common.Text.{Bytes}

-- `struct timeval`, with less than a million microseconds.
pub record Timeval : Type 0 where
  pub tv_sec : ℕ
  pub tv_usec : ℕ

-- A difference: its seconds are `ahead` less `behind`, which may be below zero.
pub record TimeDiff : Type 0 where
  pub ahead : ℕ
  pub behind : ℕ
  pub tv_usec : ℕ

-- A negative difference of the microseconds borrows a second.
unfoldable pub sub_timeval : Timeval → Timeval → TimeDiff
sub_timeval t1 t0 =
    if ltb t1.tv_usec t0.tv_usec
    then record {
      ahead = t1.tv_sec;
      behind = t0.tv_sec + 1;
      tv_usec = t1.tv_usec + 1_000_000 - t0.tv_usec;
    }
    else record { ahead = t1.tv_sec; behind = t0.tv_sec; tv_usec = t1.tv_usec - t0.tv_usec }

-- `diff.tv_sec == 0 && diff.tv_usec < 100000`.
abbrev pub too_soon : TimeDiff → Bool
too_soon diff = diff.ahead == diff.behind && ltb diff.tv_usec 100_000

-- A call: the progress, the total, which is none where it is not known, and the time, where
-- `gettimeofday` has one.
pub record Update : Type 0 where
  pub progress : ℕ
  pub total : Option ℕ
  pub this_call : Option Timeval

-- The bytes between the brackets for a length of the bar, from column `n` on.
unfoldable pub cells_from : ℕ → ℕ → ℕ → Bytes
cells_from zero n len = []
cells_from (suc left) n len =
    (if ltb (n + 1) len then b'=' else if n + 1 == len then b'>' else b' ')
    ∷ cells_from left (n + 1) len

abbrev pub drawn : (ℕ → ℕ → ℕ) → ℕ → ℕ → Bytes
drawn scale progress total =
    cells_from 30 0 (if progress == 0 || total == 0 then 0 else scale progress total)

-- Where the time is known and the transfer is not complete, the bar is drawn unless it is too soon,
-- and the time is kept; a bar for a complete transfer is drawn whatever the time, which is not kept.
abbrev pub drawn_at : (ℕ → ℕ → ℕ) → Timeval → ℕ → ℕ → Option Timeval → Timeval × Option Bytes
drawn_at scale last_call progress total (some this_call) =
    if ltb progress total
    then (if too_soon (sub_timeval this_call last_call)
        then (last_call, none)
        else (this_call, some (drawn scale progress total)))
    else (last_call, some (drawn scale progress total))
drawn_at scale last_call progress total none = (last_call, some (drawn scale progress total))

abbrev pub drawn_of : (ℕ → ℕ → ℕ) → Timeval → Update → Option ℕ → Timeval × Option Bytes
drawn_of scale last_call u none = (last_call, none)
drawn_of scale last_call u (some total) = drawn_at scale last_call u.progress total u.this_call

-- The time of the last update after a call, and the bar where one is drawn. `scale` is the length of
-- the bar, 30 times the share in floating point, cut to a whole number.
unfoldable pub pretty_progress_bar : (ℕ → ℕ → ℕ) → Timeval → Update → Timeval × Option Bytes
unfolding sub_timeval cells_from
pretty_progress_bar scale last_call u = drawn_of scale last_call u u.total
