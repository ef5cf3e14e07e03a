-- ===== src/Start/Ends.antt =====
-- The program ends once its input does, also where its operations fault.
use cadaver.CommandLine
use cadaver.CommandLine.Total.{parse_command_total}
use cadaver.CommandLine.{Outcome, run_words}
use cadaver.Common.{
  ◌>>=◌, ℕ, zero, suc, ◌<◌, ◌≤◌, ◌==◌, if_cases, ◌+◌, ◌-◌, ◌≡◌, ◌∙◌, refl, ap, Bool, true, false,
  List, [], ◌∷◌, ◌++◌, Option, none, some, arith, if◌then◌else◌, length,
}
use cadaver.Common.Text.{Bytes, codes}
use cadaver.Options.{opt_proxy, opt_lockstore}
use cadaver.Start.{
  Program, Arg, Files, Shaving, line_breaks, Parsed, parsed, exits, Ending, fgets, fgets_bytes,
  split_colon, set_port, set_proxy, parse_args, obey, execute_line, main_loop, read_rcfile,
  run_file, rc_name, init_rcfile, finish, run_lines, main,
}

-- What `fgets` leaves of a file.
fgets_bytes-le : (n : ℕ) (file : Bytes) → length (fgets_bytes n file).1 ≤ length file
unfolding fgets_bytes
fgets_bytes-le zero file = omega arith
fgets_bytes-le (suc n) [] = omega arith
fgets_bytes-le (suc n) (c ∷ file) =
    if_cases (λ (r : Bytes × Bytes). length r.1 ≤ suc (length file)) (c == 10) (λ _. omega arith)
      (λ _. omega (arith, fgets_bytes-le n file))

fgets_bytes-lt :
    (n c : ℕ) (file : Bytes) → 0 < n → length (fgets_bytes n (c ∷ file)).1 < suc (length file)
unfolding fgets_bytes
fgets_bytes-lt zero c file h = absurd (omega arith)
fgets_bytes-lt (suc n) c file h =
    if_cases (λ (r : Bytes × Bytes). length r.1 < suc (length file)) (c == 10) (λ _. omega arith)
      (λ _. omega (arith, fgets_bytes-le n file))

-- The program with its faults as a state, `none`, which no operation changes any more.
abbrev pub caught : {W : Type 0} → Program W → Program (Option W)
caught p = record {
  glob = λ o. elim o [ none ↦ λ scope t. none | some w ↦ p.glob w ];
  connected = λ o. elim o [ none ↦ false | some w ↦ p.connected w ];
  call = λ cmd args o. some (o >>= p.call cmd args);
  open_connection = λ url o. some (o >>= p.open_connection url);
  close_connection = λ o. some (o >>= p.close_connection);
  set_option = λ id value o. some (o >>= p.set_option id value);
  init_options = λ o. some (o >>= p.init_options);
  set_tolerant = λ o. o >>= λ w. some (p.set_tolerant w);
}

-- `y` is a result of the program with its faults as a state, and `x` what it stands for.
abbrev pub Caught : {A B : Type 0} → (B → Option A) → Option A → Option B → Type 0
Caught {A} {B} f x y = (b : B) × (y ≡ some b) × (x ≡ f b)

bind-Caught :
    {A B C D : Type 0} (f : B → Option A) (g : D → Option C) (x : Option A) (y : Option B)
    (k : A → Option C) (l : B → Option D)
    → Caught f x y
    → ((b : B) → Caught g (f b >>= k) (l b))
    → Caught g (x >>= k) (y >>= l)
bind-Caught f g x y k l c h =
    (let d = h c.0 in (d.0, ap (λ y. y >>= l) c.1 ∙ d.1, ap (λ x. x >>= k) c.2 ∙ d.2))

-- What a state, a step, the arguments and an ending stand for.
abbrev pub state : {W : Type 0} → Option W → Option W
state o = o

abbrev pub step : {W : Type 0} → Bool × Option W → Option (Bool × W)
step (b, o) = o >>= λ w. some (b, w)

abbrev pub arguments : {W : Type 0} → Parsed (Option W) → Option (Parsed W)
arguments (exits o) = o >>= λ w. some (exits w)
arguments (parsed o name) = o >>= λ w. some (parsed w name)

abbrev pub ending : {W : Type 0} → Ending (Option W) → Option (Ending W)
ending Ending.no_home = some Ending.no_home
ending (Ending.exited o) = o >>= λ w. some (Ending.exited w)
ending (Ending.returned o) = o >>= λ w. some (Ending.returned w)

module _ {W : Type 0} (p : Program W) where
  obey-Caught :
      (out : Outcome) (o : Option W) → Caught step (o >>= obey p out) (obey (caught p) out o)
  obey-Caught Outcome.quit none = (_, refl, refl)
  obey-Caught Outcome.quit (some w) = (_, refl, refl)
  obey-Caught Outcome.blank none = (_, refl, refl)
  obey-Caught Outcome.blank (some w) = (_, refl, refl)
  obey-Caught Outcome.unrecognised none = (_, refl, refl)
  obey-Caught Outcome.unrecognised (some w) = (_, refl, refl)
  obey-Caught (Outcome.too_few cmd) none = (_, refl, refl)
  obey-Caught (Outcome.too_few cmd) (some w) = (_, refl, refl)
  obey-Caught (Outcome.too_many cmd) none = (_, refl, refl)
  obey-Caught (Outcome.too_many cmd) (some w) = (_, refl, refl)
  obey-Caught (Outcome.not_connected cmd) none = (_, refl, refl)
  obey-Caught (Outcome.not_connected cmd) (some w) = (_, refl, refl)
  obey-Caught (Outcome.invoke cmd args) none = (_, refl, refl)
  obey-Caught (Outcome.invoke cmd args) (some w) = (_, refl, refl)

  -- What follows a step, where it does not end the loop.
  unless_done :
      {C D : Type 0} (g : D → Option C) (stop go : W → Option C) (stop' go' : Option W → Option D)
      (r : Bool × Option W)
      → ((o : Option W) → Caught g (o >>= stop) (stop' o))
      → ((o : Option W) → Caught g (o >>= go) (go' o))
      → Caught g
          (step r >>= λ r. if r.0 then stop r.1 else go r.1)
          (if r.0 then stop' r.1 else go' r.1)
  unless_done g stop go stop' go' (true, none) h k = h none
  unless_done g stop go stop' go' (true, some w) h k = h (some w)
  unless_done g stop go stop' go' (false, none) h k = k none
  unless_done g stop go stop' go' (false, some w) h k = k (some w)

  state_lem : (o : Option W) → Caught state (o >>= λ w. some w) (some o)
  state_lem none = (_, refl, refl)
  state_lem (some w) = (_, refl, refl)

  module _ (bufsiz : ℕ) where
    execute_line-Caught :
        (line : Bytes) (o : Option W)
        → Caught step (o >>= execute_line p bufsiz line) (execute_line (caught p) bufsiz line o)
    unfolding execute_line CommandLine.execute_command
    execute_line-Caught line none = rw (parse_command_total bufsiz (λ scope t. none) false line).1 (
        obey-Caught
          (run_words false (parse_command_total bufsiz (λ scope t. none) false line).0).outcome
          none)
    execute_line-Caught line (some w) =
        rw (parse_command_total bufsiz (p.glob w) (p.connected w) line).1 (
          obey-Caught
            (run_words (p.connected w)
              (parse_command_total bufsiz (p.glob w) (p.connected w) line).0).outcome
            (some w))

    -- A loop whose first line is run.
    line-Caught :
        {C D : Type 0} (g : D → Option C) (line : Bytes) (stop go : W → Option C)
        (stop' go' : Option W → Option D) (o : Option W)
        → ((o : Option W) → Caught g (o >>= stop) (stop' o))
        → ((o : Option W) → Caught g (o >>= go) (go' o))
        → Caught g
            (o >>= λ w. execute_line p bufsiz line w >>= λ r. if r.0 then stop r.1 else go r.1)
            (execute_line (caught p) bufsiz line o >>= λ r. if r.0 then stop' r.1 else go' r.1)
    line-Caught g line stop go stop' go' none h k =
        bind-Caught step g none (execute_line (caught p) bufsiz line none) _ _
          (execute_line-Caught line none) (λ r. unless_done g stop go stop' go' r h k)
    line-Caught g line stop go stop' go' (some w) h k =
        bind-Caught step g (execute_line p bufsiz line w)
          (execute_line (caught p) bufsiz line (some w)) _ _ (execute_line-Caught line (some w))
          (λ r. unless_done g stop go stop' go' r h k)

    main_loop-Caught :
        (typed : List Bytes) (o : Option W)
        → Caught state (o >>= main_loop p bufsiz typed) (main_loop (caught p) bufsiz typed o)
    unfolding main_loop
    main_loop-Caught [] o = state_lem o
    main_loop-Caught (cmd ∷ typed) o =
        line-Caught state cmd (λ w. some w) (main_loop p bufsiz typed) (λ o. some o)
          (main_loop (caught p) bufsiz typed) o state_lem (main_loop-Caught typed)

    finish-Caught :
        (o : Option W) → Caught ending (o >>= finish p bufsiz) (finish (caught p) bufsiz o)
    finish-Caught none = (_, refl, refl)
    finish-Caught (some w) = go (p.connected w)
      where
        go :
            (b : Bool)
            → Caught ending
                ((if b then p.close_connection w else some w) >>= λ w. some (Ending.returned w))
                ((if b then some (p.close_connection w) else some (some w)) >>= λ w.
                  some (Ending.returned w))
        go true = (_, refl, refl)
        go false = (_, refl, refl)

    step_lem : (b : Bool) (o : Option W) → Caught step (o >>= λ w. some (b, w)) (some (b, o))
    step_lem b none = (_, refl, refl)
    step_lem b (some w) = (_, refl, refl)

    module _ (sh : Shaving) (room : 1 < bufsiz) where
      read_rcfile-Caught :
          (fuel : ℕ) (file : Bytes) (o : Option W)
          → length file < fuel
          → Caught step
              (o >>= read_rcfile p bufsiz sh fuel file)
              (read_rcfile (caught p) bufsiz sh fuel file o)
      unfolding read_rcfile fgets
      read_rcfile-Caught zero file o h = absurd (omega arith)
      read_rcfile-Caught (suc fuel) [] o h = step_lem false o
      read_rcfile-Caught (suc fuel) (c ∷ file) o h =
          let r = fgets_bytes (bufsiz - 1) (c ∷ file) in
          line-Caught step (sh.shave r.0 line_breaks) (λ w. some (true, w))
            (read_rcfile p bufsiz sh fuel r.1) (λ o. some (true, o))
            (read_rcfile (caught p) bufsiz sh fuel r.1) o (step_lem true)
            λ o.
              read_rcfile-Caught fuel (fgets_bytes (bufsiz - 1) (c ∷ file)).1 o
                (omega (arith, h, fgets_bytes-lt (bufsiz - 1) c file (omega (arith, room))))

      run_file-Caught :
          (file : Option Bytes) (o : Option W)
          → Caught step (o >>= run_file p bufsiz sh file) (run_file (caught p) bufsiz sh file o)
      unfolding run_file
      run_file-Caught none o = step_lem false o
      run_file-Caught (some file) o = read_rcfile-Caught (length file + 1) file o (omega arith)

  set_port-Caught :
      (port : Option Bytes) (o : Option W)
      → Caught state (o >>= set_port p port) (set_port (caught p) port o)
  set_port-Caught none o = state_lem o
  set_port-Caught (some []) o = state_lem o
  set_port-Caught (some (c ∷ port)) o = (_, refl, refl)

  set_proxy-Caught :
      (str : Bytes) (o : Option W)
      → Caught state (o >>= set_proxy p str) (set_proxy (caught p) str o)
  unfolding set_proxy
  set_proxy-Caught str none =
      bind-Caught state state none (set_port (caught p) (split_colon str).1 none)
        (p.set_option opt_proxy (split_colon str).0) _ (set_port-Caught (split_colon str).1 none)
        (λ o. (_, refl, refl))
  set_proxy-Caught str (some w) =
      bind-Caught state state (set_port p (split_colon str).1 w)
        (set_port (caught p) (split_colon str).1 (some w))
        (p.set_option opt_proxy (split_colon str).0) _
        (set_port-Caught (split_colon str).1 (some w)) (λ o. (_, refl, refl))

  parse_args-Caught :
      (operands : List Bytes) (args : List Arg) (file : Option Bytes) (o : Option W)
      → Caught arguments
          (o >>= parse_args p operands args file)
          (parse_args (caught p) operands args file o)
  unfolding parse_args
  parse_args-Caught [] [] file none = (_, refl, refl)
  parse_args-Caught [] [] file (some w) = (_, refl, refl)
  parse_args-Caught (url ∷ []) [] file none = (_, refl, refl)
  parse_args-Caught (url ∷ []) [] file (some w) = (_, refl, refl)
  parse_args-Caught (_ ∷ _ ∷ _) [] file none = (_, refl, refl)
  parse_args-Caught (_ ∷ _ ∷ _) [] file (some w) = (_, refl, refl)
  parse_args-Caught operands (Arg.help ∷ args) file none = (_, refl, refl)
  parse_args-Caught operands (Arg.help ∷ args) file (some w) = (_, refl, refl)
  parse_args-Caught operands (Arg.version ∷ args) file none = (_, refl, refl)
  parse_args-Caught operands (Arg.version ∷ args) file (some w) = (_, refl, refl)
  parse_args-Caught operands (Arg.unknown ∷ args) file none = (_, refl, refl)
  parse_args-Caught operands (Arg.unknown ∷ args) file (some w) = (_, refl, refl)
  parse_args-Caught operands (Arg.tolerant ∷ args) file none =
      parse_args-Caught operands args file none
  parse_args-Caught operands (Arg.tolerant ∷ args) file (some w) =
      parse_args-Caught operands args file (some (p.set_tolerant w))
  parse_args-Caught operands (Arg.rcfile name ∷ args) file o =
      parse_args-Caught operands args (some name) o
  parse_args-Caught operands (Arg.proxy str ∷ args) file none =
      bind-Caught state arguments none (set_proxy (caught p) str none)
        (parse_args p operands args file) (parse_args (caught p) operands args file)
        (set_proxy-Caught str none) (parse_args-Caught operands args file)
  parse_args-Caught operands (Arg.proxy str ∷ args) file (some w) =
      bind-Caught state arguments (set_proxy p str w) (set_proxy (caught p) str (some w))
        (parse_args p operands args file) (parse_args (caught p) operands args file)
        (set_proxy-Caught str (some w)) (parse_args-Caught operands args file)

  module _ (bufsiz : ℕ) (sh : Shaving) (files : Files) (typed : List Bytes)
      (room : 1 < bufsiz) where
    -- The typed lines, unless the rc file quits, and the end.
    loop-Caught :
        (r : Bool × Option W)
        → Caught ending
            (step r >>= λ r.
              (if r.0 then some r.1 else main_loop p bufsiz typed r.1) >>= finish p bufsiz)
            ((if r.0 then some r.1 else main_loop (caught p) bufsiz typed r.1)
              >>= finish (caught p) bufsiz)
    loop-Caught (b, none) =
        bind-Caught state ending none _ (finish p bufsiz) (finish (caught p) bufsiz)
          (unless_done state (λ w. some w) (main_loop p bufsiz typed) (λ o. some o)
            (main_loop (caught p) bufsiz typed) (b, none) state_lem (main_loop-Caught bufsiz typed))
          (finish-Caught bufsiz)
    loop-Caught (b, some w) =
        bind-Caught state ending _ _ (finish p bufsiz) (finish (caught p) bufsiz)
          (unless_done state (λ w. some w) (main_loop p bufsiz typed) (λ o. some o)
            (main_loop (caught p) bufsiz typed) (b, some w) state_lem
            (main_loop-Caught bufsiz typed))
          (finish-Caught bufsiz)

    run_lines-Caught :
        (home : Bytes) (a : Parsed (Option W))
        → Caught ending
            (arguments a >>= run_lines p bufsiz sh files typed home)
            (run_lines (caught p) bufsiz sh files typed home a)
    unfolding run_lines init_rcfile
    run_lines-Caught home (exits none) = (_, refl, refl)
    run_lines-Caught home (exits (some w)) = (_, refl, refl)
    run_lines-Caught home (parsed none name) =
        bind-Caught step ending none _ _ _
          (run_file-Caught bufsiz sh room (rc_name p bufsiz files home name >>= files.fopen) none)
          loop-Caught
    run_lines-Caught home (parsed (some w) name) =
        bind-Caught step ending _ _ _ _
          (run_file-Caught bufsiz sh room (rc_name p bufsiz files home name >>= files.fopen)
            (some w))
          loop-Caught

    -- Whatever the operations of the program do, whichever of them fault, and whatever the arguments,
    -- the rc file and the lines are, the program ends once its input does: the program with its
    -- faults as a state has a result, and where that is not the state of a fault the program has the
    -- same result. So it has none only where an operation faults that it runs: every line is split
    -- into words, and the rc file is read to its end. The buffer has room for a byte and its NUL.
    pub main-Caught :
        (home : Option Bytes) (args : List Arg) (operands : List Bytes) (w : W)
        → Caught ending
            (main p bufsiz sh files typed home args operands w)
            (main (caught p) bufsiz sh files typed home args operands (some w))
    unfolding main
    main-Caught none args operands w = (_, refl, refl)
    main-Caught (some home) args operands w =
        bind-Caught state ending (p.set_option opt_lockstore (home ++ codes "/.cadaver-locks") w)
          (some (p.set_option opt_lockstore (home ++ codes "/.cadaver-locks") w)) _ _
          (_, refl, refl) initialised
      where
        started :
            (o : Option W)
            → Caught ending
                (o >>= λ w.
                  parse_args p operands args none w >>= run_lines p bufsiz sh files typed home)
                (parse_args (caught p) operands args none o
                  >>= run_lines (caught p) bufsiz sh files typed home)
        started none =
            bind-Caught arguments ending none (parse_args (caught p) operands args none none)
              (run_lines p bufsiz sh files typed home)
              (run_lines (caught p) bufsiz sh files typed home)
              (parse_args-Caught operands args none none) (run_lines-Caught home)
        started (some w) =
            bind-Caught arguments ending (parse_args p operands args none w)
              (parse_args (caught p) operands args none (some w))
              (run_lines p bufsiz sh files typed home)
              (run_lines (caught p) bufsiz sh files typed home)
              (parse_args-Caught operands args none (some w)) (run_lines-Caught home)

        initialised :
            (o : Option W)
            → Caught ending
                (o >>= λ w. p.init_options w >>= λ w.
                  parse_args p operands args none w >>= run_lines p bufsiz sh files typed home)
                (some (o >>= p.init_options) >>= λ o.
                  parse_args (caught p) operands args none o
                  >>= run_lines (caught p) bufsiz sh files typed home)
        initialised none = started none
        initialised (some w) = started (p.init_options w)
