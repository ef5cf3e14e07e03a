-- ===== src/Start/Script.antt =====
-- The rc file, read by `fgets`, and the lines that are typed are one script.
use cadaver.Common.{
  bind_lem, bind_assoc, bind_three, ◌>>=◌, ℕ, zero, suc, ◌+◌, ◌-◌, ◌<◌, ◌≡◌, ◌∙◌, refl, ap, Bool,
  true, false, List, [], ◌∷◌, ◌++◌, Option, none, some, arith, if◌then◌else◌, length, length-append,
  All,
}
use cadaver.Common.Text.{Bytes, codes}
use cadaver.Options.{opt_lockstore}
use cadaver.Start.{
  Program, Arg, Files, Shaving, IsLine, Parsed, parsed, fgets, fgets_bytes, execute_line, main_loop,
  read_rcfile, rc_name, run_file, init_rcfile, finish, run_lines, parse_args, main,
}

-- A line of an rc file that `fgets` reads whole, with its line feed.
abbrev pub FitsLine : ℕ → Bytes → Type 0
FitsLine bufsiz line = IsLine line × (length line + 1 < bufsiz)

abbrev pub text : List Bytes → Bytes
text [] = []
text (line ∷ lines) = line ++ 10 ∷ text lines

fgets_bytes-line :
    (line : Bytes) (n : ℕ) (file : Bytes)
    → IsLine line
    → length line < n
    → fgets_bytes n (line ++ 10 ∷ file) ≡ (line ++ 10 ∷ [], file)
unfolding fgets_bytes
fgets_bytes-line line zero file h l = absurd (omega arith)
fgets_bytes-line [] (suc n) file h l = refl
fgets_bytes-line (c ∷ line) (suc n) file h l =
    ground (arith, fgets_bytes-line line n file h.1 (omega arith), h.0)

fgets-line :
    (bufsiz : ℕ) (line file : Bytes)
    → FitsLine bufsiz line
    → fgets bufsiz (line ++ 10 ∷ file) ≡ some (line ++ 10 ∷ [], file)
unfolding fgets
fgets-line bufsiz [] file h =
    ap (λ r. some r) (fgets_bytes-line [] (bufsiz - 1) file h.0 (omega (arith, h.1)))
fgets-line bufsiz (c ∷ line) file h =
    ap (λ r. some r) (fgets_bytes-line (c ∷ line) (bufsiz - 1) file h.0 (omega (arith, h.1)))

module _ {W : Type 0} (p : Program W) (bufsiz : ℕ) (sh : Shaving) (typed : List Bytes) where
  -- What `main` does after a line or a file.
  abbrev then_typed : List Bytes → Bool × W → Option W
  then_typed typed r = if r.0 then some r.1 else main_loop p bufsiz typed r.1

  line-then :
      (o : Option (Bool × W)) (loop : W → Option (Bool × W)) (lines : List Bytes)
      → ((v : W) → (loop v >>= then_typed typed) ≡ main_loop p bufsiz lines v)
      → (o >>= (λ r. if r.0 then some (true, r.1) else loop r.1) >>= then_typed typed)
        ≡ (o >>= then_typed lines)
  line-then none loop lines h = refl
  line-then (some (true, v)) loop lines h = refl
  line-then (some (false, v)) loop lines h = h v

  read_rcfile-text :
      (lines : List Bytes) (fuel : ℕ) (w : W)
      → All (FitsLine bufsiz) lines
      → length (text lines) < fuel
      → (read_rcfile p bufsiz sh fuel (text lines) w >>= then_typed typed)
        ≡ main_loop p bufsiz (lines ++ typed) w
  unfolding read_rcfile main_loop
  read_rcfile-text lines zero w h l = absurd (omega arith)
  read_rcfile-text [] (suc fuel) w h l = unfold fgets in refl
  read_rcfile-text (line ∷ lines) (suc fuel) w h l = rw (fgets-line bufsiz line (text lines) h.0) (
      rw (sh.shave_lem line h.0.0) (
        line-then (execute_line p bufsiz line w) (read_rcfile p bufsiz sh fuel (text lines))
          (lines ++ typed)
          λ v.
            read_rcfile-text lines fuel v h.1
              (omega (arith, l, length-append line (10 ∷ text lines)))))

  module _ (files : Files) where
    -- What the rc file adds to the lines: those that it holds, or none where it is not read.
    abbrev pub Holds : Option Bytes → List Bytes → Type 0
    Holds (some file) lines = file ≡ text lines
    Holds none lines = lines ≡ []

    run_file-text :
        (file : Option Bytes) (lines : List Bytes) (w : W)
        → Holds file lines
        → All (FitsLine bufsiz) lines
        → (run_file p bufsiz sh file w >>= then_typed typed) ≡ main_loop p bufsiz (lines ++ typed) w
    unfolding run_file main_loop
    run_file-text none lines w e h = rw e refl
    run_file-text (some file) lines w e h =
        rw e (read_rcfile-text lines (length (text lines) + 1) w h (omega arith))

    -- `main` up to the rc file.
    unfoldable pub ready : Bytes → List Arg → List Bytes → W → Option (Parsed W)
    ready home args operands w = do
      w ← p.set_option opt_lockstore (home ++ codes "/.cadaver-locks") w
      w ← p.init_options w
      parse_args p operands args none w

    main-ready :
        (home : Bytes) (args : List Arg) (operands : List Bytes) (w : W)
        → main p bufsiz sh files typed (some home) args operands w
          ≡ (ready home args operands w >>= run_lines p bufsiz sh files typed home)
    unfolding main ready
    main-ready home args operands w =
        bind_three (p.set_option opt_lockstore (home ++ codes "/.cadaver-locks") w) p.init_options
          (parse_args p operands args none) (run_lines p bufsiz sh files typed home)

    -- Once its arguments are read, `main` does what it would do if the lines of the rc file were
    -- typed before the others, up to the first one of them all that quits, and then closes the
    -- connection where there is one. The lines of the file hold no line break and fit the buffer.
    pub main-script :
        (home : Bytes) (args : List Arg) (operands : List Bytes) (w v : W) (name : Option Bytes)
        (lines : List Bytes)
        → ready home args operands w ≡ some (parsed v name)
        → Holds (rc_name p bufsiz files home name >>= files.fopen) lines
        → All (FitsLine bufsiz) lines
        → main p bufsiz sh files typed (some home) args operands w
          ≡ (main_loop p bufsiz (lines ++ typed) v >>= finish p bufsiz)
    unfolding run_lines init_rcfile
    main-script home args operands w v name lines e f h =
        main-ready home args operands w
        ∙ bind_lem (ready home args operands w) (parsed v name)
            (run_lines p bufsiz sh files typed home) e
        ∙ bind_assoc (init_rcfile p bufsiz sh files home name v) (then_typed typed)
            (finish p bufsiz)
        ∙ ap (λ o. o >>= finish p bufsiz)
            (run_file-text (rc_name p bufsiz files home name >>= files.fopen) lines v f h)
