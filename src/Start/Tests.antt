-- ===== src/Start/Tests.antt =====
-- Programs that run on an rc file and typed lines, and instances of the theorems on them.
use cadaver.Commands.{get_command}
use cadaver.CommandLine.{execute_command, parse_command}
use cadaver.Common.{
  ℕ, ◌≡◌, refl, Bool, true, false, ◌&&◌, ◌||◌, List, [], ◌∷◌, ◌++◌, none, some, arith, ◌==◌,
  if◌then◌else◌, All, ◌>>=◌,
}
use cadaver.Common.Text.{Bytes, codes, streq, strcaseeq, tolower}
use cadaver.Credentials.Samples.{cut, length-cut}
use cadaver.Credentials.{Buffers}
use cadaver.Connection.{Reply, Server, check_address}
use cadaver.Connection.Places.{Last, at, away}
use cadaver.Listing.{ResourceType}
use cadaver.Neon.Samples.{plain}
use cadaver.Options.{OptionId}
use cadaver.Start.Closed.{Ensures, EndsFreed, main-EndsFreed}
use cadaver.Start.Ends.{Caught, caught, ending, main-Caught}
use cadaver.Start.Prompt.{prompt, quit_handler}
use cadaver.Start.Script.{FitsLine, ready, text, main-script}
use cadaver.Start.Sessions.{
  Surroundings, Located, LiveAt, heap_program, place_program, cleared, nowhere, main-Simulates,
}
use cadaver.Start.Simulation.{Related, EndsAt}
use cadaver.Start.{
  Program, Arg, Files, Shaving, IsLine, Parsed, Ending, fgets, fgets_bytes, execute_line, main_loop,
  read_rcfile, run_file, init_rcfile, finish, run_lines, set_proxy, parse_args, main,
}
use cadaver.Tokenizer.{gettoken}

abbrev among : ℕ → Bytes → Bool
among c [] = false
among c (d ∷ set) = c == d || among c set

abbrev shave_front : Bytes → Bytes → Bytes
shave_front [] set = []
shave_front (c ∷ s) set = if among c set then shave_front s set else c ∷ s

abbrev is_empty : Bytes → Bool
is_empty [] = true
is_empty (c ∷ s) = false

abbrev shave_back : Bytes → Bytes → Bytes
shave_back [] set = []
shave_back (c ∷ s) set =
    let rest = shave_back s set in if is_empty rest && among c set then [] else c ∷ rest

shave_back-line : (line : Bytes) → IsLine line → shave_back (line ++ 10 ∷ []) (13 ∷ 10 ∷ []) ≡ line
shave_back-line [] h = refl
shave_back-line (c ∷ line) h = ground (arith, shave_back-line line h.1, h.0)

shave_line :
    (line : Bytes)
    → IsLine line
    → shave_back (shave_front (line ++ 10 ∷ []) (13 ∷ 10 ∷ [])) (13 ∷ 10 ∷ []) ≡ line
shave_line [] h = refl
shave_line (c ∷ line) h = ground (arith, shave_back-line (c ∷ line) h, h.0)

abbrev shaving : Shaving
shaving = record { shave = λ s set. shave_back (shave_front s set) set; shave_lem = shave_line }

abbrev server : Server
server = record {
  uri_parse = λ url. record {
    failed = false;
    scheme = some (codes "http");
    userinfo = none;
    host = some (codes "h");
    port = 80;
    path = some (codes "/" ++ url);
  };
  has_ssl = true;
  options2 = λ u path. Reply.ok 1;
  class1 = λ caps. true;
  getrestype = λ p. some ResourceType.resr_collection;
}

abbrev surroundings : ℕ → Surroundings
surroundings tick = record {
  client = record {
    clicert_fromuri = λ uri. none;
    clicert_read = λ file. none;
    password = λ i. none;
    atoi = λ port. 3128;
  };
  settings = record {
    clicert = none;
    clicert_uri = none;
    proxy = none;
    proxy_port = none;
    keepalive = true;
    expect100 = false;
    systemproxy = false;
  };
  tolerant = false;
  resolve = λ current name. current ++ name ++ codes "/";
  server = server;
  glob = λ scope t. none;
}

abbrev rc_lines : List Bytes
rc_lines = codes "open d" ∷ codes "# sub" ∷ codes "cd e" ∷ []

abbrev files : Files
files = record { stat = λ name. true; fopen = λ name. some (text rc_lines) }

abbrev typed : List Bytes
typed = codes "lpwd" ∷ codes "cd f" ∷ codes "quit" ∷ codes "cd g" ∷ []

abbrev places : Program Located
places = place_program plain surroundings

-- The lines of the file and those that are typed, up to `quit`.
runs :
    main_loop places 64 (rc_lines ++ typed) nowhere
    ≡ some (record { place = at (codes "/d/e/f/") (Last.kept (codes "/d/e/")); tick = 4 })
unfolding main_loop execute_line execute_command parse_command gettoken get_command check_address
    streq strcaseeq tolower
runs = refl

ends :
    main places 64 shaving files typed (some (codes "/h")) [] [] nowhere
    ≡ some (Ending.returned (record { place = away true; tick = 7 }))
unfolding main parse_args run_lines init_rcfile run_file read_rcfile fgets fgets_bytes main_loop
    execute_line execute_command parse_command gettoken get_command check_address streq strcaseeq
    tolower
ends = refl

too_many :
    main places 64 shaving files typed
      (some (codes "/h"))
      (Arg.tolerant ∷ [])
      (codes "a" ∷ codes "b" ∷ [])
      nowhere
    ≡ some (Ending.exited (record { place = away false; tick = 3 }))
unfolding main parse_args run_lines
too_many = refl

-- What is longer than the buffer is read as two lines.
long_line : fgets 4 (codes "abcde") ≡ some (codes "abc", codes "de")
unfolding fgets fgets_bytes
long_line = refl

-- The options that are set, with their values.
abbrev settings_only : Program (List (OptionId × Bytes))
settings_only = record {
  glob = λ w scope t. none;
  connected = λ w. false;
  call = λ cmd args w. some w;
  open_connection = λ url w. some w;
  close_connection = λ w. some w;
  set_option = λ id value w. some ((id, value) ∷ w);
  init_options = λ w. some w;
  set_tolerant = λ w. w;
}

proxy_with_port :
    set_proxy settings_only (codes "cache:3128") []
    ≡ some ((OptionId.opt_proxy, codes "cache") ∷ (OptionId.opt_proxy_port, codes "3128") ∷ [])
unfolding set_proxy
proxy_with_port = refl

proxy_without_port :
    set_proxy settings_only (codes "cache:") [] ≡ some ((OptionId.opt_proxy, codes "cache") ∷ [])
unfolding set_proxy
proxy_without_port = refl

rc_lines-FitsLine : All (FitsLine 64) rc_lines
rc_lines-FitsLine = ground arith

is_ready :
    ready places 64 shaving typed files (codes "/h") [] [] nowhere
    ≡ some (Parsed.parsed (record { place = away false; tick = 2 }) none)
unfolding ready parse_args
is_ready = refl

main-script_example : main places 64 shaving files typed (some (codes "/h")) [] [] nowhere ≡ (
    main_loop places 64 (rc_lines ++ typed) (record { place = away false; tick = 2 })
    >>= finish places 64)
main-script_example =
    main-script places 64 shaving typed files (codes "/h") [] [] nowhere
      (record { place = away false; tick = 2 }) none rc_lines is_ready refl rc_lines-FitsLine

main-Simulates_example :
    Related
      (EndsAt (LiveAt plain surroundings))
      (main
        (heap_program plain surroundings)
        64
        shaving
        files
        typed
        (some (codes "/h"))
        []
        []
        cleared)
      (main places 64 shaving files typed (some (codes "/h")) [] [] nowhere)
main-Simulates_example =
    main-Simulates plain surroundings 64 shaving files typed (some (codes "/h")) [] []

main-EndsFreed_example : Ensures EndsFreed (
    main (heap_program plain surroundings) 64 shaving files typed (some (codes "/h")) [] [] cleared)
main-EndsFreed_example =
    main-EndsFreed plain surroundings 64 shaving files typed (some (codes "/h")) [] []

-- The buffers of neon.
abbrev wide : Buffers
wide = record { abufsiz = 256; strnzcpy = cut; strnzcpy_lem = length-cut }

shown_prompt : prompt wide (λ p. some p) 64 (some (codes "/d/")) true ≡ some (codes "dav:/d/> ")
unfolding prompt
shown_prompt = refl

-- A signal at a child leaves the connection alone.
child_signalled : quit_handler places true nowhere ≡ some (true, nowhere)
unfolding quit_handler
child_signalled = refl

main-Caught_example :
    Caught ending
      (main
        (heap_program plain surroundings)
        64
        shaving
        files
        typed
        (some (codes "/h"))
        (Arg.proxy (codes "cache:3128") ∷ [])
        (codes "d" ∷ [])
        cleared)
      (main
        (caught (heap_program plain surroundings))
        64
        shaving
        files
        typed
        (some (codes "/h"))
        (Arg.proxy (codes "cache:3128") ∷ [])
        (codes "d" ∷ [])
        (some cleared))
main-Caught_example =
    main-Caught (heap_program plain surroundings) 64 shaving files typed (omega arith)
      (some (codes "/h")) (Arg.proxy (codes "cache:3128") ∷ []) (codes "d" ∷ []) cleared
