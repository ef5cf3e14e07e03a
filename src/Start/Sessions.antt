-- ===== src/Start/Sessions.antt =====
-- The program with the session of the module Session, whose strings lie on a heap, and the same
-- program with the places of the module Connection.
use cadaver.CommandLine.{Args, Slot}
use cadaver.CommandLine.Safe.{function}
use cadaver.Commands.{Function, Scope}
use cadaver.Common.{
  ◌>>=◌, ℕ, ◌+◌, ◌≡◌, refl, ap, subst, Bool, true, false, List, [], ◌∷◌, ◌++◌, Option, none, some,
}
use cadaver.Common.Text.{Bytes}
use cadaver.Connection.Closing.{Leaves, close_connection-Leaves}
use cadaver.Connection.Commands.{SessionCommand, open_url, close, cd, look, run_session, travel}
use cadaver.Connection.Moves.{Follows}
use cadaver.Connection.Places.{Place, away, at, leave, Stands, Last}
use cadaver.Connection.Runs.{run_session-Follows}
use cadaver.Connection.Setup.{Client, Settings}
use cadaver.Connection.{Server}
use cadaver.Neon.{Neon}
use cadaver.Session
use cadaver.Session.{Session, Heap}
use cadaver.Start.Simulation.{Related, Simulates, EndsAt, main-Related}
use cadaver.Start.{Program, Arg, Files, Shaving, main}

-- What a command meets: the user, the options, the resolution of a path against the current one, the
-- server, and the expansion of patterns.
pub record Surroundings : Type 0 where
  pub client : Client
  pub settings : Settings
  pub tolerant : Bool
  pub resolve : Bytes → Bytes → Bytes
  pub server : Server
  pub glob : Scope → Bytes → Option (List Bytes)

-- A session, and the number of operations before.
pub record Live : Type 0 where
  pub session : Session
  pub tick : ℕ

pub record Located : Type 0 where
  pub place : Place
  pub tick : ℕ

-- The commands that change the session. The prompt and the other commands read its path at most.
abbrev pub commands_of : Server → Function → Args → List SessionCommand
commands_of server Function.open_connection (Args.take1 (Slot.token url)) = open_url server url ∷ []
commands_of server Function.close_connection Args.take0 = close ∷ []
commands_of server Function.execute_cd (Args.take1 (Slot.token name)) =
    cd server.getrestype name ∷ []
commands_of server _ _ = []

abbrev pub with_reads : List SessionCommand → List SessionCommand
with_reads commands = look ∷ commands ++ look ∷ []

-- The session at the start of `main`, all zero.
abbrev pub cleared : Live
cleared = record {
  session = record {
    server = none;
    path = none;
    lastwp = none;
    sess = false;
    connected = false;
    isdav = false;
    caps = 0;
    heap = record { next = 0; cell = λ a. none };
  };
  tick = 0;
}

abbrev pub nowhere : Located
nowhere = record { place = away false; tick = 0 }

abbrev pub is_at : Place → Bool
is_at (away d) = false
is_at (at current l) = true

-- The surroundings may be others for each operation.
module _ (n : Neon) (world : ℕ → Surroundings) where
  abbrev pub then_live : ℕ → Option Session → Option Live
  then_live tick o = o >>= λ s. some (record { session = s; tick = tick + 1 })

  abbrev pub run_live : Surroundings → Live → List SessionCommand → Option Live
  run_live u w commands =
      then_live w.tick (run_session n u.client u.settings u.tolerant u.resolve w.session commands)

  abbrev pub heap_program : Program Live
  heap_program = record {
    glob = λ w. (world w.tick).glob;
    connected = λ w. w.session.connected;
    call = λ cmd args w.
        run_live (world w.tick) w
          (with_reads (commands_of (world w.tick).server (function cmd.handler) args));
    open_connection = λ url w. run_live (world w.tick) w (open_url (world w.tick).server url ∷ []);
    close_connection = λ w. then_live w.tick (Session.close_connection w.session);
    set_option = λ id value w. then_live w.tick (some w.session);
    init_options = λ w. then_live w.tick (some w.session);
    set_tolerant = λ w. record w { tick = w.tick + 1 };
  }

  abbrev pub then_located : ℕ → Option Place → Option Located
  then_located tick o = o >>= λ pl. some (record { place = pl; tick = tick + 1 })

  abbrev pub run_located : Surroundings → Located → List SessionCommand → Option Located
  run_located u v commands =
      then_located v.tick (travel n u.client u.settings u.tolerant u.resolve v.place commands)

  abbrev pub place_program : Program Located
  place_program = record {
    glob = λ v. (world v.tick).glob;
    connected = λ v. is_at v.place;
    call = λ cmd args v.
        run_located (world v.tick) v
          (with_reads (commands_of (world v.tick).server (function cmd.handler) args));
    open_connection =
        λ url v. run_located (world v.tick) v (open_url (world v.tick).server url ∷ []);
    close_connection = λ v. then_located v.tick (leave v.place >>= λ d. some (away d));
    set_option = λ id value v. then_located v.tick (some v.place);
    init_options = λ v. then_located v.tick (some v.place);
    set_tolerant = λ v. record v { tick = v.tick + 1 };
  }

  -- The session stands at the place.
  abbrev pub LiveAt : Live → Located → Type 0
  LiveAt w v = Stands w.session v.place × (w.tick ≡ v.tick)

  Follows-Related :
      (r : Option Session) (o : Option Place) (t u : ℕ)
      → t ≡ u
      → Follows r o
      → Related LiveAt (then_live t r) (then_located u o)
  Follows-Related r none t u e h = rw h tt
  Follows-Related r (some pl) t u e h = rw h.1 (h.2, ap (λ k. k + 1) e)

  run-Related :
      (w : Live) (v : Located) (u : Surroundings) (commands : List SessionCommand)
      → LiveAt w v
      → Related LiveAt (run_live u w commands) (run_located u v commands)
  run-Related w v u commands r =
      Follows-Related (run_session n u.client u.settings u.tolerant u.resolve w.session commands)
        (travel n u.client u.settings u.tolerant u.resolve v.place commands) w.tick v.tick r.1
        (run_session-Follows n u.client u.settings u.tolerant u.resolve w.session v.place commands
          r.0)

  tick-Related :
      (w : Live) (v : Located) (commands : Surroundings → List SessionCommand)
      → LiveAt w v
      → Related LiveAt
          (run_live (world w.tick) w (commands (world w.tick)))
          (run_located (world v.tick) v (commands (world v.tick)))
  tick-Related w v commands r =
      subst
        (λ k.
          Related LiveAt (run_live (world w.tick) w (commands (world w.tick)))
            (run_located (world k) v (commands (world k))))
        r.1 (run-Related w v (world w.tick) (commands (world w.tick)) r)

  connected_lem : (s : Session) (pl : Place) → Stands s pl → s.connected ≡ is_at pl
  connected_lem s (away d) r = r.connected
  connected_lem s (at current Last.absent) r = r.connected
  connected_lem s (at current (Last.kept previous)) r = r.connected
  connected_lem s (at current Last.freed) r = r.1

  leaves_lem :
      (r : Option Session) (o : Option Bool) (t u : ℕ)
      → t ≡ u
      → Leaves r o
      → Related LiveAt (then_live t r) (then_located u (o >>= λ d. some (away d)))
  leaves_lem r none t u e h = rw h tt
  leaves_lem r (some d) t u e h = rw h.1 (h.2, ap (λ k. k + 1) e)

  program-Simulates : Simulates heap_program place_program LiveAt
  program-Simulates = record {
    glob = λ w v r. ap (λ k. (world k).glob) r.1;
    connected = λ w v r. connected_lem w.session v.place r.0;
    call = λ cmd args w v r.
        tick-Related w v (λ u. with_reads (commands_of u.server (function cmd.handler) args)) r;
    open_connection = λ url w v r. tick-Related w v (λ u. open_url u.server url ∷ []) r;
    close_connection = λ w v r c.
        leaves_lem (Session.close_connection w.session) (leave v.place) w.tick v.tick r.1
          (close_connection-Leaves w.session v.place r.0);
    set_option = λ id value w v r. (r.0, ap (λ k. k + 1) r.1);
    init_options = λ w v r. (r.0, ap (λ k. k + 1) r.1);
    set_tolerant = λ w v r. (r.0, ap (λ k. k + 1) r.1);
  }

  cleared-LiveAt : LiveAt cleared nowhere
  cleared-LiveAt = (
    record {
      server = refl;
      path = refl;
      sess = refl;
      connected = refl;
      trails = refl;
      cells = λ a. refl;
    },
    refl,
  )

  module _ (bufsiz : ℕ) (sh : Shaving) (files : Files) (typed : List Bytes) where
    -- From its start to its end, whatever the arguments, the rc file, the lines that are typed and
    -- the surroundings, the program does to the session on the heap what it does to places: it frees
    -- no string twice and reads none that is freed except where the places say so, and the session
    -- stands at the place where they end. Each command that is called also reads the current path
    -- before and after, as the prompt does.
    pub main-Simulates :
        (home : Option Bytes) (args : List Arg) (operands : List Bytes)
        → Related
            (EndsAt LiveAt)
            (main heap_program bufsiz sh files typed home args operands cleared)
            (main place_program bufsiz sh files typed home args operands nowhere)
    main-Simulates home args operands =
        main-Related heap_program place_program LiveAt program-Simulates bufsiz sh files typed home
          args operands cleared nowhere cleared-LiveAt
