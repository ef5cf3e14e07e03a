-- ===== src/Connection/Commands.antt =====
-- The commands that change the session, as `execute_command` calls them.
use cadaver.Common.{◌>>=◌, ℕ, Bool, List, [], ◌∷◌, Option, none, some, if◌then◌else◌}
use cadaver.Common.Text.{Bytes}
use cadaver.Connection.{Server, open_connection}
use cadaver.Connection.Places.{Place, open_at, cd_at, leave}
use cadaver.Connection.Setup.{Client, Settings}
use cadaver.Listing.{ResourceType}
use cadaver.Neon.{Neon}
use cadaver.Session.{Session, close_connection, execute_cd}

-- A command with the server that it finds, or a read of the current path, where there is one: by the
-- prompt, or by a command that leaves the session alone.
pub data SessionCommand : Type 0 where
  open_url : Server → Bytes → SessionCommand
  close : SessionCommand
  cd : (Bytes → Option ResourceType) → Bytes → SessionCommand
  look : SessionCommand

-- `none` is a read of a string that is freed.
abbrev pub read_path : Session → Option ℕ → Option Session
read_path s none = some s
read_path s (some p) = s.heap.cell p >>= λ path. some s

module _ (n : Neon) (c : Client) (o : Settings) (tolerant : Bool)
    (resolve : Bytes → Bytes → Bytes) where
  -- `close` and `cd` are run with a connection only.
  unfoldable pub step_session : Session → SessionCommand → Option Session
  step_session s (open_url server url) =
      open_connection n c o tolerant server s url >>= λ r. some r.session
  step_session s close = if s.connected then close_connection s else some s
  step_session s (cd getrestype name) =
      if s.connected then execute_cd tolerant resolve getrestype s name else some s
  step_session s look = read_path s s.path

  unfoldable pub run_session : Session → List SessionCommand → Option Session
  unfolding step_session
  run_session s [] = some s
  run_session s (command ∷ commands) = step_session s command >>= λ s. run_session s commands

  -- The same on places.
  abbrev pub move : Place → SessionCommand → Option Place
  move pl (open_url server url) = open_at n c o tolerant server url pl >>= λ r. some r.0
  move (Place.away d) close = some (Place.away d)
  move (Place.at current l) close = leave (Place.at current l) >>= λ d. some (Place.away d)
  move (Place.away d) (cd getrestype name) = some (Place.away d)
  move (Place.at current l) (cd getrestype name) = cd_at tolerant resolve getrestype current l name
  move pl look = some pl

  abbrev pub travel : Place → List SessionCommand → Option Place
  travel pl [] = some pl
  travel pl (command ∷ commands) = move pl command >>= λ pl. travel pl commands
