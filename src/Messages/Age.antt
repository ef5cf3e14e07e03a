-- ===== src/Messages/Age.antt =====
-- Which times are shown without their year.
use cadaver.Common.{◌+◌, ◌≤◌, ◌≡◌, ◌↔◌, false, arith}
use cadaver.Messages.{ℤ, pos_part, neg_part, half_year, hour, shows_year}

-- From half a year before to an hour after the current time.
abbrev pub IsRecent : ℤ → ℤ → Type 0
IsRecent now when =
    (pos_part now + neg_part when ≤ pos_part when + half_year + neg_part now)
    × (pos_part when + neg_part now ≤ pos_part now + hour + neg_part when)

shows_year_iff : (now when : ℤ) → (shows_year now when ≡ false) ↔ IsRecent now when
shows_year_iff now when = ground arith
