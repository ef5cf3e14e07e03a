-- ===== src/Connection/Closing.antt =====
-- What `close_connection` does to a session at a place.
use cadaver.Common.{◌≡◌, refl, Bool, true, false, Option, none, some, arith}
use cadaver.Common.Text.{Bytes}
use cadaver.Connection.Places.{Place, Last, leave, left, shut, Holds, Away, Stands}
use cadaver.Session.{Session, close_connection, put}
use cadaver.Session.Closing.{close_lem, faults_lem, closed_at}
use cadaver.Session.Ownership.{Paired, free_lem}
use Place.{away, at}

-- A close on the heap that stands for one of places; `none` is a fault on both sides.
abbrev pub Leaves : Option Session → Option Bool → Type 0
Leaves r none = r ≡ none
Leaves r (some d) = (s : Session) × (r ≡ some s) × Away s d

-- A session that owns its path only.
pub close_connection-Holds :
    (s : Session) (current : Bytes) (d : Bool)
    → Holds s current d
    → Leaves (close_connection s) (shut (left d))
unfolding closed_at
close_connection-Holds s current false r = (
  closed_at s (put s.heap r.p none),
  close_lem s (some r.p) none (put s.heap r.p none) _ r.path r.trails
      (free_lem r.p s.heap current (ground (arith, r.cells r.p))) refl,
  record {
    server = refl;
    path = refl;
    sess = refl;
    connected = refl;
    trails = r.trails;
    cells = λ a. ground (arith, r.cells a);
  },
)
close_connection-Holds s current true r =
    faults_lem s (some r.p) r.trails.0 (put s.heap r.p none) r.path r.trails.1
      (free_lem r.p s.heap current (ground (arith, r.cells r.p)))
      (ground (arith, r.cells r.trails.0))

-- A session that owns nothing.
pub close_connection-Away :
    (s : Session) (d : Bool) → Away s d → Leaves (close_connection s) (shut (left d))
unfolding closed_at
close_connection-Away s false r = (
  closed_at s s.heap,
  close_lem s none none s.heap s.heap r.path r.trails refl refl,
  record {
    server = refl;
    path = refl;
    sess = refl;
    connected = refl;
    trails = r.trails;
    cells = r.cells;
  },
)
close_connection-Away s true r =
    faults_lem s none r.trails.0 s.heap r.path r.trails.1 refl (r.cells r.trails.0)

close_connection-Paired :
    (s : Session) (current previous : Bytes)
    → Paired s current previous
    → Leaves (close_connection s) (some true)
unfolding closed_at
close_connection-Paired s current previous r = (
  closed_at s (put (put s.heap r.p none) r.q none),
  close_lem s (some r.p) (some r.q) (put s.heap r.p none) _ r.path r.lastwp
      (free_lem r.p s.heap current (ground (arith, r.cells r.p)))
      (free_lem r.q (put s.heap r.p none) previous (ground (arith, r.cells r.q, r.distinct))),
  record {
    server = refl;
    path = refl;
    sess = refl;
    connected = refl;
    trails = (r.q, r.lastwp, r.q_below, λ e. omega (arith, e, r.q_below));
    cells = λ a. ground (arith, r.cells a);
  },
)

-- `close_connection` at any place frees the strings of that place, each once, and faults where
-- and only where `lastwp` is freed already.
pub close_connection-Leaves :
    (s : Session) (pl : Place) → Stands s pl → Leaves (close_connection s) (leave pl)
close_connection-Leaves s (away d) r = close_connection-Away s d r
close_connection-Leaves s (at current (Last.absent)) r =
    close_connection-Holds s current false
      (record { p = r.p; path = r.path; below = r.below; trails = r.lastwp; cells = r.cells })
close_connection-Leaves s (at current (Last.kept previous)) r =
    close_connection-Paired s current previous r
close_connection-Leaves s (at current Last.freed) r = close_connection-Holds s current true r.0
