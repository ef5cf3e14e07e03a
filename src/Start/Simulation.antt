-- ===== src/Start/Simulation.antt =====
-- Two programs whose commands do the same to related states do the same from start to end.
use cadaver.CommandLine
use cadaver.CommandLine.{Args, Outcome, Run}
use cadaver.Commands.{Command}
use cadaver.Common.{
  ◌>>=◌, ℕ, zero, suc, ◌+◌, ◌≡◌, refl, Bool, true, false, List, [], ◌∷◌, ◌++◌, Option, none, some,
  arith, if◌then◌else◌, length,
}
use cadaver.Common.Text.{Bytes, codes}
use cadaver.Options.{OptionId, opt_proxy, opt_proxy_port, opt_lockstore}
use cadaver.Start.{
  Program, Arg, Files, Shaving, Parsed, parsed, exits, Ending, line_breaks, split_colon, set_port,
  set_proxy, parse_args, obey, execute_line, main_loop, with_line, read_rcfile, run_file, rc_name,
  init_rcfile, finish, run_lines, main, fgets,
}

-- Both fault, or neither does and the results are related.
abbrev pub Related : {A B : Type 0} → (A → B → Type 0) → Option A → Option B → Type 0
Related R (some a) (some b) = R a b
Related R none none = Unit
Related R _ _ = ⊥

pub bind-Related :
    {A B C D : Type 0} (R : A → B → Type 0) (S : C → D → Type 0) (o : Option A) (o' : Option B)
    (f : A → Option C) (g : B → Option D)
    → Related R o o'
    → ((a : A) (b : B) → R a b → Related S (f a) (g b))
    → Related S (o >>= f) (o' >>= g)
bind-Related R S (some a) (some b) f g r h = h a b r
bind-Related R S none none f g r h = tt
bind-Related R S (some a) none f g r h = elim r [ ]
bind-Related R S none (some b) f g r h = elim r [ ]

-- The operations of `q` do to related states what those of `p` do.
pub record Simulates {W V : Type 0} (p : Program W) (q : Program V) (R : W → V → Type 0)
    : Type 0 where
  pub glob : (w : W) (v : V) → R w v → p.glob w ≡ q.glob v
  pub connected : (w : W) (v : V) → R w v → p.connected w ≡ q.connected v
  pub call :
      (cmd : Command) (args : Args) (w : W) (v : V)
      → R w v
      → Related R (p.call cmd args w) (q.call cmd args v)
  pub open_connection :
      (url : Bytes) (w : W) (v : V)
      → R w v
      → Related R (p.open_connection url w) (q.open_connection url v)
  pub close_connection :
      (w : W) (v : V)
      → R w v
      → p.connected w ≡ true
      → Related R (p.close_connection w) (q.close_connection v)
  pub set_option :
      (id : OptionId) (value : Bytes) (w : W) (v : V)
      → R w v
      → Related R (p.set_option id value w) (q.set_option id value v)
  pub init_options : (w : W) (v : V) → R w v → Related R (p.init_options w) (q.init_options v)
  pub set_tolerant : (w : W) (v : V) → R w v → R (p.set_tolerant w) (q.set_tolerant v)

abbrev pub EndsAt : {W V : Type 0} → (W → V → Type 0) → Ending W → Ending V → Type 0
EndsAt R Ending.no_home Ending.no_home = Unit
EndsAt R (Ending.exited w) (Ending.exited v) = R w v
EndsAt R (Ending.returned w) (Ending.returned v) = R w v
EndsAt R _ _ = ⊥

module _ {W V : Type 0} (p : Program W) (q : Program V) (R : W → V → Type 0)
    (sim : Simulates p q R) where
  abbrev Stepped : Bool × W → Bool × V → Type 0
  Stepped a b = (a.0 ≡ b.0) × R a.1 b.1

  abbrev ParsedAs : Parsed W → Parsed V → Type 0
  ParsedAs (exits w) (exits v) = R w v
  ParsedAs (parsed w n) (parsed v m) = R w v × (n ≡ m)
  ParsedAs _ _ = ⊥

  -- What follows a step, where it does not end the program.
  abbrev unless_done : {U C : Type 0} → (U → Option C) → (U → Option C) → Bool × U → Option C
  unless_done stop go r = if r.0 then stop r.1 else go r.1

  unless_done-Related :
      {C D : Type 0} (S : C → D → Type 0) (stop go : W → Option C) (stop' go' : V → Option D)
      (a : Bool × W) (b : Bool × V)
      → Stepped a b
      → ((w : W) (v : V) → R w v → Related S (stop w) (stop' v))
      → ((w : W) (v : V) → R w v → Related S (go w) (go' v))
      → Related S (unless_done stop go a) (unless_done stop' go' b)
  unless_done-Related S stop go stop' go' (true, w) (true, v) r h k = h w v r.1
  unless_done-Related S stop go stop' go' (false, w) (false, v) r h k = k w v r.1
  unless_done-Related S stop go stop' go' (true, w) (false, v) r h k = absurd (ground (arith, r.0))
  unless_done-Related S stop go stop' go' (false, w) (true, v) r h k = absurd (ground (arith, r.0))

  obey-Related : (o : Outcome) (w : W) (v : V) → R w v → Related Stepped (obey p o w) (obey q o v)
  obey-Related Outcome.quit w v r = (refl, r)
  obey-Related Outcome.blank w v r = (refl, r)
  obey-Related Outcome.unrecognised w v r = (refl, r)
  obey-Related (Outcome.too_few cmd) w v r = (refl, r)
  obey-Related (Outcome.too_many cmd) w v r = (refl, r)
  obey-Related (Outcome.not_connected cmd) w v r = (refl, r)
  obey-Related (Outcome.invoke cmd args) w v r =
      bind-Related R Stepped (p.call cmd args w) (q.call cmd args v) (λ w. some (false, w))
        (λ v. some (false, v)) (sim.call cmd args w v r) (λ w v r. (refl, r))

  if-Related :
      (b b' : Bool) (x y : Option W) (x' y' : Option V)
      → b ≡ b'
      → (b ≡ true → Related R x x')
      → Related R y y'
      → Related R (if b then x else y) (if b' then x' else y')
  if-Related true true x y x' y' e h k = h refl
  if-Related false false x y x' y' e h k = k
  if-Related true false x y x' y' e h k = absurd (ground (arith, e))
  if-Related false true x y x' y' e h k = absurd (ground (arith, e))

  same-Related :
      {A : Type 0} (S : A → A → Type 0) (o : Option A) → ((a : A) → S a a) → Related S o o
  same-Related S none h = tt
  same-Related S (some a) h = h a

  module _ (bufsiz : ℕ) where
    execute_line-Related :
        (line : Bytes) (w : W) (v : V)
        → R w v
        → Related Stepped (execute_line p bufsiz line w) (execute_line q bufsiz line v)
    unfolding execute_line
    execute_line-Related line w v r =
        rw (sim.glob w v r, sim.connected w v r)
          (bind-Related (λ (a b : Run). a ≡ b) Stepped
            (CommandLine.execute_command bufsiz (q.glob v) (q.connected v) line)
            (CommandLine.execute_command bufsiz (q.glob v) (q.connected v) line)
            (λ run. obey p run.outcome w) (λ run. obey q run.outcome v)
            (same-Related (λ (a b : Run). a ≡ b) _ (λ a. refl))
            λ a b e. rw e (obey-Related b.outcome w v r))

    main_loop-Related :
        (typed : List Bytes) (w : W) (v : V)
        → R w v
        → Related R (main_loop p bufsiz typed w) (main_loop q bufsiz typed v)
    unfolding main_loop
    main_loop-Related [] w v r = r
    main_loop-Related (cmd ∷ typed) w v r =
        bind-Related Stepped R (execute_line p bufsiz cmd w) (execute_line q bufsiz cmd v) _ _
          (execute_line-Related cmd w v r)
          λ a b s.
            unless_done-Related R (λ w. some w) (main_loop p bufsiz typed) (λ v. some v)
              (main_loop q bufsiz typed) a b s (λ w v r. r) (main_loop-Related typed)

    module _ (sh : Shaving) where
      read_rcfile-Related :
          (fuel : ℕ) (file : Bytes) (w : W) (v : V)
          → R w v
          → Related Stepped
              (read_rcfile p bufsiz sh fuel file w)
              (read_rcfile q bufsiz sh fuel file v)
      unfolding read_rcfile
      read_rcfile-Related zero file w v r = tt
      read_rcfile-Related (suc fuel) file w v r = go (fgets bufsiz file) (read_rcfile-Related fuel)
        where
          go :
              (o : Option (Bytes × Bytes))
              → ((file : Bytes) (w : W) (v : V)
                  → R w v
                  → Related Stepped
                      (read_rcfile p bufsiz sh fuel file w)
                      (read_rcfile q bufsiz sh fuel file v))
              → Related Stepped
                  (with_line p bufsiz sh (read_rcfile p bufsiz sh fuel) o w)
                  (with_line q bufsiz sh (read_rcfile q bufsiz sh fuel) o v)
          go none ih = (refl, r)
          go (some (buf, file)) ih =
              bind-Related Stepped Stepped (execute_line p bufsiz (sh.shave buf line_breaks) w)
                (execute_line q bufsiz (sh.shave buf line_breaks) v) _ _
                (execute_line-Related (sh.shave buf line_breaks) w v r)
                λ a b s.
                  unless_done-Related Stepped (λ w. some (true, w))
                    (read_rcfile p bufsiz sh fuel file) (λ v. some (true, v))
                    (read_rcfile q bufsiz sh fuel file) a b s (λ w v r. (refl, r)) (ih file)

      run_file-Related :
          (file : Option Bytes) (w : W) (v : V)
          → R w v
          → Related Stepped (run_file p bufsiz sh file w) (run_file q bufsiz sh file v)
      unfolding run_file
      run_file-Related none w v r = (refl, r)
      run_file-Related (some file) w v r = read_rcfile-Related (length file + 1) file w v r

    finish-Related :
        (w : W) (v : V) → R w v → Related (EndsAt R) (finish p bufsiz w) (finish q bufsiz v)
    finish-Related w v r =
        bind-Related R (EndsAt R) (if p.connected w then p.close_connection w else some w)
          (if q.connected v then q.close_connection v else some v) _ _
          (if-Related (p.connected w) (q.connected v) (p.close_connection w) (some w)
            (q.close_connection v) (some v) (sim.connected w v r) (sim.close_connection w v r) r)
          (λ w v r. r)

  set_proxy-Related :
      (str : Bytes) (w : W) (v : V) → R w v → Related R (set_proxy p str w) (set_proxy q str v)
  unfolding set_proxy
  set_proxy-Related str w v r =
      bind-Related R R (set_port p (split_colon str).1 w) (set_port q (split_colon str).1 v) _ _
        (with_port (split_colon str).1)
        (λ w v r. sim.set_option opt_proxy (split_colon str).0 w v r)
    where
      with_port : (o : Option Bytes) → Related R (set_port p o w) (set_port q o v)
      with_port none = r
      with_port (some []) = r
      with_port (some (c ∷ port)) = sim.set_option opt_proxy_port (c ∷ port) w v r

  parse_args-Related :
      (operands : List Bytes) (args : List Arg) (file : Option Bytes) (w : W) (v : V)
      → R w v
      → Related ParsedAs (parse_args p operands args file w) (parse_args q operands args file v)
  unfolding parse_args
  parse_args-Related [] [] file w v r = (r, refl)
  parse_args-Related (url ∷ []) [] file w v r =
      bind-Related R ParsedAs (p.open_connection url w) (q.open_connection url v) _ _
        (sim.open_connection url w v r) (λ w v r. (r, refl))
  parse_args-Related (_ ∷ _ ∷ _) [] file w v r = r
  parse_args-Related operands (Arg.help ∷ args) file w v r = r
  parse_args-Related operands (Arg.version ∷ args) file w v r = r
  parse_args-Related operands (Arg.unknown ∷ args) file w v r = r
  parse_args-Related operands (Arg.tolerant ∷ args) file w v r =
      parse_args-Related operands args file (p.set_tolerant w) (q.set_tolerant v)
        (sim.set_tolerant w v r)
  parse_args-Related operands (Arg.rcfile name ∷ args) file w v r =
      parse_args-Related operands args (some name) w v r
  parse_args-Related operands (Arg.proxy str ∷ args) file w v r =
      bind-Related R ParsedAs (set_proxy p str w) (set_proxy q str v) _ _
        (set_proxy-Related str w v r) (parse_args-Related operands args file)

  module _ (bufsiz : ℕ) (sh : Shaving) (files : Files) (typed : List Bytes) where
    run_lines-Related :
        (home : Bytes) (a : Parsed W) (b : Parsed V)
        → ParsedAs a b
        → Related
            (EndsAt R)
            (run_lines p bufsiz sh files typed home a)
            (run_lines q bufsiz sh files typed home b)
    unfolding run_lines
    run_lines-Related home (exits w) (exits v) r = r
    run_lines-Related home (exits w) (parsed v m) r = elim r [ ]
    run_lines-Related home (parsed w n) (exits v) r = elim r [ ]
    run_lines-Related home (parsed w n) (parsed v m) r = rw r.1 (
        bind-Related Stepped (EndsAt R) (init_rcfile p bufsiz sh files home m w)
          (init_rcfile q bufsiz sh files home m v) _ _
          (unfold init_rcfile in
            run_file-Related bufsiz sh (rc_name p bufsiz files home m >>= files.fopen) w v r.0)
          λ a b s.
            bind-Related R (EndsAt R) (unless_done (λ w. some w) (main_loop p bufsiz typed) a)
              (unless_done (λ v. some v) (main_loop q bufsiz typed) b) (finish p bufsiz)
              (finish q bufsiz)
              (unless_done-Related R (λ w. some w) (main_loop p bufsiz typed) (λ v. some v)
                (main_loop q bufsiz typed) a b s (λ w v r. r) (main_loop-Related bufsiz typed))
              (finish-Related bufsiz))

    -- The whole program.
    pub main-Related :
        (home : Option Bytes) (args : List Arg) (operands : List Bytes) (w : W) (v : V)
        → R w v
        → Related
            (EndsAt R)
            (main p bufsiz sh files typed home args operands w)
            (main q bufsiz sh files typed home args operands v)
    unfolding main
    main-Related none args operands w v r = tt
    main-Related (some home) args operands w v r =
        bind-Related R (EndsAt R) (p.set_option opt_lockstore (home ++ codes "/.cadaver-locks") w)
          (q.set_option opt_lockstore (home ++ codes "/.cadaver-locks") v) _ _
          (sim.set_option opt_lockstore (home ++ codes "/.cadaver-locks") w v r)
          λ w v r.
            bind-Related R (EndsAt R) (p.init_options w) (q.init_options v) _ _
              (sim.init_options w v r)
              λ w v r.
                bind-Related ParsedAs (EndsAt R) (parse_args p operands args none w)
                  (parse_args q operands args none v) _ _
                  (parse_args-Related operands args none w v r) (run_lines-Related home)
