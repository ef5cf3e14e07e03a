-- ===== src/Progress/Paced.antt =====
-- How often the progress bar is drawn.
use cadaver.Common.{
  ℕ, zero, suc, ◌+◌, ◌*◌, ◌≤◌, ◌<◌, ◌≡◌, refl, ◌||◌, List, [], ◌∷◌, Option, none, some, arith, ltb,
  ◌==◌, if◌then◌else◌, length, Bool-cases, inl, inr, ltb→lt, subst,
}
use cadaver.Common.Text.{Bytes}
use cadaver.Progress.Bar.{
  Timeval, sub_timeval, too_soon, Update, cells_from, drawn, drawn_at, drawn_of,
  pretty_progress_bar,
}

-- A time in microseconds.
abbrev pub stamp : Timeval → ℕ
stamp t = t.tv_sec * 1_000_000 + t.tv_usec

-- The time of an update that is subject to the limit: of a transfer that is under way.
abbrev pub under_way : ℕ → Option ℕ → Option Timeval → Option ℕ
under_way progress (some total) (some t) = if ltb progress total then some (stamp t) else none
under_way progress _ _ = none

abbrev pub moment : Update → Option ℕ
moment u = under_way u.progress u.total u.this_call

-- Each update with the bar that it draws, if it draws one.
abbrev pub draws : (ℕ → ℕ → ℕ) → Timeval → List Update → List (Update × Option Bytes)
draws scale last_call [] = []
draws scale last_call (u ∷ us) =
    (u, (pretty_progress_bar scale last_call u).1)
    ∷ draws scale (pretty_progress_bar scale last_call u).0 us

abbrev pub FairAt : ℕ → Option ℕ → Option ℕ → Option Bytes → Type 0
FairAt last (some t) total (some bar) = (last + 100_000 ≤ t) × (length bar ≡ 30)
FairAt last (some t) total none = t < last + 100_000
FairAt last none total (some bar) = length bar ≡ 30
FairAt last none total none = total ≡ none

abbrev pub latest : ℕ → Option ℕ → Option Bytes → ℕ
latest last (some t) (some bar) = t
latest last _ _ = last

-- No two bars of a transfer under way less than 100 ms apart; whatever is not drawn was either too
-- early by that, or has no known total; and each bar is 30 cells wide.
abbrev pub Fair : ℕ → List (Update × Option Bytes) → Type 0
Fair last [] = Unit
Fair last ((u, o) ∷ trace) =
    FairAt last (moment u) u.total o × Fair (latest last (moment u) o) trace

-- The clock does not go back, and its times are well formed.
abbrev pub Clock : ℕ → List Update → Type 0
Clock now [] = Unit
Clock now (u ∷ us) = elim u.this_call [
  | none ↦ Clock now us
  | some t ↦ (t.tv_usec < 1_000_000) × (now ≤ stamp t) × Clock (stamp t) us
]

too_soon-stamp :
    (t1 t0 : Timeval)
    → t1.tv_usec < 1_000_000
    → t0.tv_usec < 1_000_000
    → stamp t0 ≤ stamp t1
    → too_soon (sub_timeval t1 t0) ≡ ltb (stamp t1) (stamp t0 + 100_000)
unfolding sub_timeval
too_soon-stamp t1 t0 h k l = ground arith

length-cells_from : (left n len : ℕ) → length (cells_from left n len) ≡ left
unfolding cells_from
length-cells_from zero n len = refl
length-cells_from (suc left) n len = omega (arith, length-cells_from left (n + 1) len)

module _ (scale : ℕ → ℕ → ℕ) where
  -- What one update keeps.
  abbrev Kept : Timeval → Option ℕ → Option ℕ → ℕ → Timeval × Option Bytes → Type 0
  Kept last m total now r =
      FairAt (stamp last) m total r.1
      × (stamp r.0 ≡ latest (stamp last) m r.1)
      × (r.0.tv_usec < 1_000_000)
      × (stamp r.0 ≤ now)

  length-drawn : (progress total : ℕ) → length (drawn scale progress total) ≡ 30
  length-drawn progress total =
      length-cells_from 30 0 (if progress == 0 || total == 0 then 0 else scale progress total)

  timed-Kept :
      (last t : Timeval) (now progress total : ℕ)
      → last.tv_usec < 1_000_000
      → stamp last ≤ now
      → t.tv_usec < 1_000_000
      → now ≤ stamp t
      → Kept last
          (under_way progress (some total) (some t))
          (some total)
          (stamp t)
          (drawn_at scale last progress total (some t))
  timed-Kept last t now progress total v l h k = elim (Bool-cases (ltb progress total)) [
    | inr b ↦ rw b (length-drawn progress total, refl, v, omega (arith, l, k))
    | inl b ↦ rw b (
        rw (too_soon-stamp t last h v (omega (arith, l, k)))
          (elim (Bool-cases (ltb (stamp t) (stamp last + 100_000))) [
            | inl s ↦ rw s (ltb→lt _ _ s, refl, v, omega (arith, l, k))
            | inr s ↦ rw s ((ground (arith, s), length-drawn progress total), refl, h, omega arith)
          ]))
  ]

  -- The time after an update, as far as it is known.
  abbrev later : ℕ → Option Timeval → ℕ
  later now none = now
  later now (some t) = stamp t

  abbrev Ticks : ℕ → Option Timeval → Type 0
  Ticks now none = Unit
  Ticks now (some t) = (t.tv_usec < 1_000_000) × (now ≤ stamp t)

  Clock_lem :
      (now : ℕ) (u : Update) (us : List Update)
      → Clock now (u ∷ us)
      → Ticks now u.this_call × Clock (later now u.this_call) us
  Clock_lem now u us c = go u.this_call c
    where
      go :
          (o : Option Timeval)
          → (elim o as (λ _. Type 0) [
            | none ↦ Clock now us
            | some t ↦ (t.tv_usec < 1_000_000) × (now ≤ stamp t) × Clock (stamp t) us
          ])
          → Ticks now o × Clock (later now o) us
      go none c = (tt, c)
      go (some t) c = ((c.0, c.1), c.2)

  update-Kept :
      (u : Update) (last : Timeval) (now : ℕ)
      → last.tv_usec < 1_000_000
      → stamp last ≤ now
      → Ticks now u.this_call
      → Kept last (moment u) u.total (later now u.this_call) (pretty_progress_bar scale last u)
  unfolding pretty_progress_bar
  update-Kept u last now v l c = go u.total u.this_call c
    where
      go :
          (total : Option ℕ) (o : Option Timeval)
          → Ticks now o
          → Kept last
              (under_way u.progress total o)
              total
              (later now o)
              (drawn_of scale last (record u { this_call = o }) total)
      go none none c = (refl, refl, v, l)
      go none (some t) c = (refl, refl, v, omega (arith, l, c.1))
      go (some total) none c = (length-drawn u.progress total, refl, v, l)
      go (some total) (some t) c = timed-Kept last t now u.progress total v l c.0 c.1

  -- Whatever the updates of a transfer are, no two bars of it while it is under way are drawn less
  -- than 100 ms apart, an update of a known total is drawn unless it comes too early by that, the
  -- last one for the complete transfer in any case, and each bar is 30 cells wide. The clock does
  -- not go back.
  pub draws-Fair :
      (us : List Update) (last : Timeval) (now : ℕ)
      → last.tv_usec < 1_000_000
      → stamp last ≤ now
      → Clock now us
      → Fair (stamp last) (draws scale last us)
  draws-Fair [] last now v l c = tt
  draws-Fair (u ∷ us) last now v l c =
      let t = Clock_lem now u us c in
      let k = update-Kept u last now v l t.0 in
      (
        k.0,
        subst (λ a. Fair a (draws scale (pretty_progress_bar scale last u).0 us)) k.1
            (draws-Fair us (pretty_progress_bar scale last u).0 (later now u.this_call) k.2 k.3
              t.1),
      )
