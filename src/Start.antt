-- ===== src/Start.antt =====
-- The program from its start to its end, `main` of src/cadaver.c: the arguments, the rc file, the
-- lines that the user types, and the end of the connection. The commands are the functions of a
-- record, over a state of which only the connection is looked at here.
pub mod Script
pub mod Simulation
pub mod Sessions
pub mod Closed
pub mod Ends
pub mod Prompt
mod Tests
use cadaver.CommandLine
use cadaver.CommandLine.{Args, Outcome, Run}
use cadaver.Commands.{Command, Scope}
use cadaver.Common.{
  ◌>>=◌, ℕ, zero, suc, ◌+◌, ◌-◌, ◌≡◌, ◌≢◌, Bool, true, false, List, [], ◌∷◌, ◌++◌, Option, none,
  some, ◌==◌, if◌then◌else◌, length, All,
}
use cadaver.Common.Text.{Bytes, codes}
use cadaver.Options.{OptionId, opt_proxy, opt_proxy_port, opt_lockstore}

-- What the commands and the functions of other files do to the state; `none` is a fault.
pub record Program (W : Type 0) : Type 0 where
  pub glob : W → Scope → Bytes → Option (List Bytes)
  pub connected : W → Bool
  pub call : Command → Args → W → Option W
  pub open_connection : Bytes → W → Option W
  pub close_connection : W → Option W
  pub set_option : OptionId → Bytes → W → Option W
  pub init_options : W → Option W
  pub set_tolerant : W → W

-- What `getopt_long` of lib/getopt.c returns, one value for each option.
pub data Arg : Type 0 where
  help version tolerant unknown : Arg
  proxy rcfile : Bytes → Arg

-- The files: whether there is one of a name, and what it holds where it can be opened.
pub record Files : Type 0 where
  pub stat : Bytes → Bool
  pub fopen : Bytes → Option Bytes

-- Bytes that `fgets` and `ne_shave` do not take for the end of a line.
abbrev pub IsLine : Bytes → Type 0
IsLine line = All (λ c. (c ≢ 10) × (c ≢ 13)) line

abbrev pub line_breaks : Bytes
line_breaks = 13 ∷ 10 ∷ []

-- `ne_shave` of neon, which takes the bytes of a set off both ends of a string.
pub record Shaving : Type 0 where
  pub shave : Bytes → Bytes → Bytes
  pub shave_lem : (line : Bytes) → IsLine line → shave (line ++ 10 ∷ []) line_breaks ≡ line

-- `fgets` of stdio.h: `n` more bytes at most, and none behind a line feed.
unfoldable pub fgets_bytes : ℕ → Bytes → Bytes × Bytes
fgets_bytes zero file = ([], file)
fgets_bytes (suc n) [] = ([], [])
fgets_bytes (suc n) (c ∷ file) =
    let rest = fgets_bytes n file in if c == 10 then (c ∷ [], file) else (c ∷ rest.0, rest.1)

unfoldable pub fgets : ℕ → Bytes → Option (Bytes × Bytes)
unfolding fgets_bytes
fgets size [] = none
fgets size (c ∷ file) = some (fgets_bytes (size - 1) (c ∷ file))

-- A string before its first colon, and what stands behind that.
abbrev pub split_colon : Bytes → Bytes × Option Bytes
split_colon [] = ([], none)
split_colon (c ∷ str) =
    let rest = split_colon str in if c == b':' then ([], some str) else (c ∷ rest.0, rest.1)

-- What the arguments lead to: the end of the program, or the name of the rc file.
pub data Parsed (W : Type 0) : Type 0 where
  exits : W → Parsed W
  parsed : W → Option Bytes → Parsed W

-- How the program ends; `exited` is `exit (-1)`.
pub data Ending (W : Type 0) : Type 0 where
  no_home : Ending W
  exited returned : W → Ending W

-- `bufsiz` is BUFSIZ.
module _ {W : Type 0} (p : Program W) where
  abbrev pub set_port : Option Bytes → W → Option W
  set_port (some (c ∷ port)) w = p.set_option opt_proxy_port (c ∷ port) w
  set_port _ w = some w

  unfoldable pub set_proxy : Bytes → W → Option W
  set_proxy str w = do
    w ← set_port (split_colon str).1 w
    p.set_option opt_proxy (split_colon str).0 w

  -- The operands: the URL to open, or too many.
  abbrev pub operand : List Bytes → Option Bytes → W → Option (Parsed W)
  operand [] file w = some (parsed w file)
  operand (url ∷ []) file w = p.open_connection url w >>= λ w. some (parsed w file)
  operand (_ ∷ _ ∷ _) file w = some (exits w)

  unfoldable pub parse_args : List Bytes → List Arg → Option Bytes → W → Option (Parsed W)
  unfolding set_proxy
  parse_args operands [] file w = operand operands file w
  parse_args operands (help ∷ args) file w = some (exits w)
  parse_args operands (version ∷ args) file w = some (exits w)
  parse_args operands (unknown ∷ args) file w = some (exits w)
  parse_args operands (tolerant ∷ args) file w = parse_args operands args file (p.set_tolerant w)
  parse_args operands (rcfile name ∷ args) file w = parse_args operands args (some name) w
  parse_args operands (proxy str ∷ args) file w =
      set_proxy str w >>= λ w. parse_args operands args file w

  -- Whether the program is to end, and the state.
  abbrev pub obey : Outcome → W → Option (Bool × W)
  obey Outcome.quit w = some (true, w)
  obey (Outcome.invoke cmd args) w = p.call cmd args w >>= λ w. some (false, w)
  obey _ w = some (false, w)

  module _ (bufsiz : ℕ) where
    unfoldable pub execute_line : Bytes → W → Option (Bool × W)
    execute_line line w =
        CommandLine.execute_command bufsiz (p.glob w) (p.connected w) line >>= λ r. obey r.outcome w

    -- The loop of `main`, over what `readline` returns until the end of the input.
    unfoldable pub main_loop : List Bytes → W → Option W
    unfolding execute_line
    main_loop [] w = some w
    main_loop (cmd ∷ typed) w = do
      r ← execute_line cmd w
      (if r.0 then some r.1 else main_loop typed r.1)

    -- The loop of `init_rcfile`, with fuel.
    abbrev pub with_line :
        Shaving → (Bytes → W → Option (Bool × W)) → Option (Bytes × Bytes) → W → Option (Bool × W)
    with_line sh loop none w = some (false, w)
    with_line sh loop (some (buf, file)) w = do
      r ← execute_line (sh.shave buf line_breaks) w
      (if r.0 then some (true, r.1) else loop file r.1)

    unfoldable pub read_rcfile : Shaving → ℕ → Bytes → W → Option (Bool × W)
    unfolding execute_line fgets
    read_rcfile sh zero file w = none
    read_rcfile sh (suc fuel) file w = with_line sh (read_rcfile sh fuel) (fgets bufsiz file) w

    unfoldable pub run_file : Shaving → Option Bytes → W → Option (Bool × W)
    unfolding read_rcfile
    run_file sh none w = some (false, w)
    run_file sh (some file) w = read_rcfile sh (length file + 1) file w

    -- The file that is named, or the default one where it is there.
    abbrev pub rc_name : Files → Bytes → Option Bytes → Option Bytes
    rc_name files home (some name) = some name
    rc_name files home none =
        if files.stat (home ++ codes "/.cadaverrc")
        then some (home ++ codes "/.cadaverrc")
        else none

    unfoldable pub init_rcfile : Shaving → Files → Bytes → Option Bytes → W → Option (Bool × W)
    unfolding run_file
    init_rcfile sh files home name w = run_file sh (rc_name files home name >>= files.fopen) w

    -- The end of `main`.
    abbrev pub finish : W → Option (Ending W)
    finish w = (if p.connected w then p.close_connection w else some w) >>= λ w. some (returned w)

    module _ (sh : Shaving) (files : Files) (typed : List Bytes) where
      unfoldable pub run_lines : Bytes → Parsed W → Option (Ending W)
      unfolding init_rcfile main_loop
      run_lines home (exits w) = some (exited w)
      run_lines home (parsed w name) = do
        r ← init_rcfile sh files home name w
        w ← (if r.0 then some r.1 else main_loop typed r.1)
        finish w

      unfoldable pub main : Option Bytes → List Arg → List Bytes → W → Option (Ending W)
      unfolding parse_args run_lines
      main none args operands w = some no_home
      main (some home) args operands w = do
        w ← p.set_option opt_lockstore (home ++ codes "/.cadaver-locks") w
        w ← p.init_options w
        a ← parse_args operands args none w
        run_lines home a
