-- ===== src/Connection/Runs.antt =====
-- Sequences of commands on a session.
use cadaver.Common.{
  bind_lem, ◌>>=◌, ◌≡◌, ◌∙◌, refl, sym, arith, subst, ap, Bool, true, false, List, [], ◌∷◌, Option,
  none, some, if◌then◌else◌,
}
use cadaver.Common.Text.{Bytes}
use cadaver.Connection.{Opened, Report, Server}
use cadaver.Connection.Closing.{Leaves, close_connection-Leaves}
use cadaver.Connection.Commands.{SessionCommand, read_path, step_session, run_session, move, travel}
use cadaver.Connection.Moves.{Follows, execute_cd-Follows}
use cadaver.Connection.Opening.{Opens, open_connection-Opens}
use cadaver.Connection.Places.{Place, Last, cd_at, leave, Stands}
use cadaver.Connection.Setup.{Client, Settings}
use cadaver.Neon.{Neon}
use cadaver.Session.{Session, close_connection, execute_cd}
use cadaver.Session.Ownership.{Paired}
use Place.{away, at}
use SessionCommand.{open_url, close, cd, look}

open_lem : (b : Bool) (x y : Option Session) → b ≡ true → (if b then x else y) ≡ x
open_lem b x y e = rw e refl

closed_lem : (b : Bool) (x y : Option Session) → b ≡ false → (if b then x else y) ≡ y
closed_lem b x y e = rw e refl

-- What follows a step, on the heap and on places.
then_lem :
    (r : Option Session) (x : Option Place) (f : Session → Option Session)
    (g : Place → Option Place)
    → ((s : Session) (pl : Place) → Stands s pl → Follows (f s) (g pl))
    → Follows r x
    → Follows (r >>= f) (x >>= g)
then_lem r none f g k h = ap (λ r. r >>= f) h
then_lem r (some pl) f g k (s, e, h) = subst (λ r. Follows (r >>= f) (g pl)) (sym e) (k s pl h)

module _ (n : Neon) (c : Client) (o : Settings) (tolerant : Bool)
    (resolve : Bytes → Bytes → Bytes) where
  opens_lem :
      (r : Option Opened) (x : Option (Place × Report))
      → Opens r x
      → Follows (r >>= λ r. some r.session) (x >>= λ x. some x.0)
  opens_lem r none h = ap (λ r. r >>= λ r. some r.session) h
  opens_lem r (some (pl, report)) (o, e, f, h) = (o.session, bind_lem r o _ e, h)

  leaves_lem :
      (r : Option Session) (x : Option Bool) → Leaves r x → Follows r (x >>= λ d. some (away d))
  leaves_lem r none h = h
  leaves_lem r (some d) h = h

  at_connected :
      (s : Session) (current : Bytes) (l : Last) → Stands s (at current l) → s.connected ≡ true
  at_connected s current Last.absent r = r.connected
  at_connected s current (Last.kept previous) r = r.connected
  at_connected s current Last.freed r = r.1

  -- The current path of a session at a place can be read.
  read_path-Follows :
      (s : Session) (pl : Place) → Stands s pl → Follows (read_path s s.path) (some pl)
  read_path-Follows s (away d) r = (s, ap (read_path s) r.path, r)
  read_path-Follows s (at current Last.absent) r = (
    s,
    ap (read_path s) r.path ∙ bind_lem (s.heap.cell r.p) current _ (ground (arith, r.cells r.p)),
    r,
  )
  read_path-Follows s (at current (Last.kept previous)) r = (
    s,
    ap (read_path s) r.path ∙ bind_lem (s.heap.cell r.p) current _ (ground (arith, r.cells r.p)),
    r,
  )
  read_path-Follows s (at current Last.freed) r = (
    s,
    ap (read_path s) r.0.path
        ∙ bind_lem (s.heap.cell r.0.p) current _ (ground (arith, r.0.cells r.0.p)),
    r,
  )

  pub step_session-Follows :
      (s : Session) (pl : Place) (command : SessionCommand)
      → Stands s pl
      → Follows
          (step_session n c o tolerant resolve s command)
          (move n c o tolerant resolve pl command)
  unfolding step_session
  step_session-Follows s pl (open_url server url) r =
      opens_lem _ _ (open_connection-Opens n c o tolerant server s pl url r)
  step_session-Follows s (away d) close r = (s, closed_lem s.connected _ (some s) r.connected, r)
  step_session-Follows s (at current l) close r =
      subst (λ x. Follows x (leave (at current l) >>= λ d. some (away d)))
        (sym (open_lem s.connected (close_connection s) (some s) (at_connected s current l r)))
        (leaves_lem _ (leave (at current l)) (close_connection-Leaves s (at current l) r))
  step_session-Follows s (away d) (cd getrestype name) r =
      (s, closed_lem s.connected _ (some s) r.connected, r)
  step_session-Follows s (at current l) (cd getrestype name) r =
      subst (λ x. Follows x (cd_at tolerant resolve getrestype current l name))
        (sym (
          open_lem s.connected (execute_cd tolerant resolve getrestype s name) (some s)
            (at_connected s current l r)))
        (execute_cd-Follows tolerant resolve getrestype s current l name r)
  step_session-Follows s pl look r = read_path-Follows s pl r

  -- Any sequence of `open`, `close`, `cd` and reads of the current path on the heap does what it does
  -- to places: it frees no string twice, reads none that is freed and leaks none, and faults where
  -- and only where the places say so, which is where a previous path that is freed is used, or
  -- `getrestype` faults.
  pub run_session-Follows :
      (s : Session) (pl : Place) (commands : List SessionCommand)
      → Stands s pl
      → Follows
          (run_session n c o tolerant resolve s commands)
          (travel n c o tolerant resolve pl commands)
  unfolding run_session
  run_session-Follows s pl [] r = (s, refl, r)
  run_session-Follows s pl (command ∷ commands) r =
      then_lem (step_session n c o tolerant resolve s command)
        (move n c o tolerant resolve pl command)
        (λ s. run_session n c o tolerant resolve s commands)
        (λ pl. travel n c o tolerant resolve pl commands)
        (λ s pl h. run_session-Follows s pl commands h) (step_session-Follows s pl command r)

  -- A session that came to its collection by `cd` is closed, and the next `open` then frees the
  -- previous path again, whatever the URL and the server.
  pub close-open :
      (s : Session) (current previous : Bytes) (server : Server) (url : Bytes)
      → Paired s current previous
      → run_session n c o tolerant resolve s (close ∷ open_url server url ∷ []) ≡ none
  close-open s current previous server url r =
      run_session-Follows s (at current (Last.kept previous)) (close ∷ open_url server url ∷ []) r
