-- ===== src/Start/Closed.antt =====
-- What a program that returns leaves of its session.
use cadaver.Common.{
  ◌>>=◌, ℕ, ◌≡◌, refl, ◌++◌, Bool, true, false, List, Option, none, some, arith, if◌then◌else◌,
}
use cadaver.Common.Text.{Bytes, codes}
use cadaver.Connection.Places.{Place, away, at, Stands, leave}
use cadaver.Neon.{Neon}
use cadaver.Options.{opt_lockstore}
use cadaver.Start.Sessions.{
  Surroundings, Live, Located, LiveAt, heap_program, place_program, cleared, nowhere, is_at,
  main-Simulates, then_located,
}
use cadaver.Start.Simulation.{Related, EndsAt}
use cadaver.Start.{
  Program, Arg, Files, Shaving, Parsed, parsed, exits, Ending, parse_args, init_rcfile, main_loop,
  finish, run_lines, main,
}

-- `P` holds of the result, where there is one.
abbrev pub Ensures : {A : Type 0} → (A → Type 0) → Option A → Type 0
Ensures P none = Unit
Ensures P (some a) = P a

bind-Ensures :
    {A B : Type 0} (P : B → Type 0) (o : Option A) (f : A → Option B)
    → ((a : A) → Ensures P (f a))
    → Ensures P (o >>= f)
bind-Ensures P none f h = tt
bind-Ensures P (some a) f h = h a

abbrev Disconnected : {W : Type 0} → Program W → Ending W → Type 0
Disconnected p (Ending.returned w) = p.connected w ≡ false
Disconnected p _ = Unit

module _ {W : Type 0} (p : Program W) (bufsiz : ℕ)
    (closes : (w : W) → Ensures (λ w. p.connected w ≡ false) (p.close_connection w)) where
  finish-Disconnected : (w : W) → Ensures (Disconnected p) (finish p bufsiz w)
  finish-Disconnected w = go (p.connected w) refl
    where
      closed :
          (o : Option W)
          → Ensures (λ w. p.connected w ≡ false) o
          → Ensures (Disconnected p) (o >>= λ w. some (Ending.returned w))
      closed none h = tt
      closed (some v) h = h

      go :
          (b : Bool)
          → p.connected w ≡ b
          → Ensures
              (Disconnected p)
              ((if b then p.close_connection w else some w) >>= λ w. some (Ending.returned w))
      go true e = closed (p.close_connection w) (closes w)
      go false e = e

  main-Disconnected :
      (sh : Shaving) (files : Files) (typed : List Bytes) (home : Option Bytes) (args : List Arg)
      (operands : List Bytes) (w : W)
      → Ensures (Disconnected p) (main p bufsiz sh files typed home args operands w)
  unfolding main run_lines
  main-Disconnected sh files typed none args operands w = tt
  main-Disconnected sh files typed (some home) args operands w =
      bind-Ensures (Disconnected p) (p.set_option opt_lockstore (home ++ codes "/.cadaver-locks") w)
        _
        λ w.
          bind-Ensures (Disconnected p) (p.init_options w) _
            λ w. bind-Ensures (Disconnected p) (parse_args p operands args none w) _ lines
    where
      lines : (a : Parsed W) → Ensures (Disconnected p) (run_lines p bufsiz sh files typed home a)
      lines (exits v) = tt
      lines (parsed v name) =
          bind-Ensures (Disconnected p) (init_rcfile p bufsiz sh files home name v) _ λ r.
            bind-Ensures (Disconnected p) (if r.0 then some r.1 else main_loop p bufsiz typed r.1)
              (finish p bufsiz) finish-Disconnected

-- No session of neon is left, no server and no string.
pub record IsFreed (w : Live) : Type 0 where
  pub server : w.session.server ≡ none
  pub sess : w.session.sess ≡ false
  pub cells : (a : ℕ) → w.session.heap.cell a ≡ none
  pub path : w.session.path ≡ none
  pub connected : w.session.connected ≡ false

abbrev pub EndsFreed : Ending Live → Type 0
EndsFreed (Ending.returned w) = IsFreed w
EndsFreed _ = Unit

away-IsFreed :
    (n : Neon) (world : ℕ → Surroundings) (w : Live) (v : Located)
    → LiveAt n world w v
    → is_at v.place ≡ false
    → IsFreed w
away-IsFreed n world w v r e = go v.place r.0 e
  where
    go : (pl : Place) → Stands w.session pl → is_at pl ≡ false → IsFreed w
    go (away d) s e = record {
      server = s.server;
      sess = s.sess;
      cells = s.cells;
      path = s.path;
      connected = s.connected;
    }
    go (at current l) s e = absurd (ground (arith, e))

module _ (n : Neon) (world : ℕ → Surroundings) where
  ends_lem :
      (o : Option (Ending Live)) (o' : Option (Ending Located))
      → Related (EndsAt (LiveAt n world)) o o'
      → Ensures (Disconnected (place_program n world)) o'
      → Ensures EndsFreed o
  ends_lem none o' r h = tt
  ends_lem (some Ending.no_home) o' r h = tt
  ends_lem (some (Ending.exited w)) o' r h = tt
  ends_lem (some (Ending.returned w)) (some (Ending.returned v)) r h = away-IsFreed n world w v r h
  ends_lem (some (Ending.returned w)) none r h = elim r [ ]
  ends_lem (some (Ending.returned w)) (some Ending.no_home) r h = elim r [ ]
  ends_lem (some (Ending.returned w)) (some (Ending.exited v)) r h = elim r [ ]

  leave_lem :
      (o : Option Bool) (tick : ℕ)
      → Ensures (λ v. is_at v.place ≡ false) (then_located n world tick (o >>= λ d. some (away d)))
  leave_lem none tick = tt
  leave_lem (some d) tick = refl

  -- When the program returns, however its lines and arguments have opened, changed and closed
  -- connections, no session of neon, server or connection is left, and every string of the session
  -- has been freed.
  pub main-EndsFreed :
      (bufsiz : ℕ) (sh : Shaving) (files : Files) (typed : List Bytes) (home : Option Bytes)
      (args : List Arg) (operands : List Bytes)
      → Ensures EndsFreed
          (main (heap_program n world) bufsiz sh files typed home args operands cleared)
  main-EndsFreed bufsiz sh files typed home args operands =
      ends_lem _ (main (place_program n world) bufsiz sh files typed home args operands nowhere)
        (main-Simulates n world bufsiz sh files typed home args operands)
        (main-Disconnected (place_program n world) bufsiz (λ v. leave_lem (leave v.place) v.tick) sh
          files typed home args operands nowhere)
