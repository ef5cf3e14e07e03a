-- ===== src/Connection/Tests.antt =====
-- Sessions that open, change and close their collection, and instances of the theorems on them.
use cadaver.Common.{
  ◌≡◌, refl, true, false, [], ◌∷◌, ◌++◌, Option, none, some, arith, ◌==◌, if◌then◌else◌,
}
use cadaver.Common.Text.{Bytes, codes, streq, strcaseeq, tolower}
use cadaver.Connection.{Address, Reply, Report, Server, open_connection, check_address}
use cadaver.Connection.Commands.{SessionCommand, run_session, travel}
use cadaver.Connection.Moves.{Follows}
use cadaver.Connection.Opening.{Opens, open_connection-Opens}
use cadaver.Connection.Places.{Place, Last, Stands, open_at}
use cadaver.Connection.Runs.{run_session-Follows, close-open}
use cadaver.Connection.Setup.{Call, Client, Settings, offered, setup_ssl, unlock}
use cadaver.Connection.Verified.{IsVerified, open_connection-IsVerified}
use cadaver.Listing.{ResourceType}
use cadaver.Neon.Samples.{plain}
use cadaver.Session.{Session}
use cadaver.Session.Ownership.{Paired}
use Place.{away, at}
use SessionCommand.{open_url, close, cd}

-- `https` and the path `/s` for the empty URL, `http` and the path `/d` for any other one.
abbrev parse : Bytes → Address
parse [] = record {
  failed = false;
  scheme = some (codes "https");
  userinfo = none;
  host = some (codes "h");
  port = 0;
  path = some (codes "/s");
}
parse (b ∷ url) = record {
  failed = false;
  scheme = some (codes "http");
  userinfo = none;
  host = some (codes "h");
  port = 0;
  path = some (codes "/d");
}

abbrev getrestype : Bytes → Option ResourceType
getrestype p = some ResourceType.resr_collection

abbrev server : Server
server = record {
  uri_parse = parse;
  has_ssl = true;
  options2 = λ u path. Reply.ok 1;
  class1 = λ caps. caps == 1;
  getrestype = getrestype;
}

-- A server that does not answer.
abbrev silent : Server
silent = record server { options2 = λ u path. Reply.connect }

-- A certificate that the second password opens.
abbrev client : Client
client = record {
  clicert_fromuri = λ uri. none;
  clicert_read =
      λ file. some (record { encrypted = true; decrypts = λ pass. streq pass (codes "b") });
  password = λ i. some (if i == 0 then codes "a" else codes "b");
  atoi = λ port. 3128;
}

abbrev settings : Settings
settings = record {
  clicert = some (codes "me.p12");
  clicert_uri = none;
  proxy = some (codes "cache");
  proxy_port = none;
  keepalive = true;
  expect100 = false;
  systemproxy = false;
}

abbrev resolve : Bytes → Bytes → Bytes
resolve current name = current ++ name ++ codes "/"

-- The session at the start of the program.
abbrev fresh : Session
fresh = record {
  server = none;
  path = none;
  lastwp = none;
  sess = false;
  connected = false;
  isdav = false;
  caps = 0;
  heap = record { next = 0; cell = λ a. none };
}

fresh-Stands : Stands fresh (away false)
fresh-Stands = record {
  server = refl;
  path = refl;
  sess = refl;
  connected = refl;
  trails = refl;
  cells = λ a. refl;
}

-- At `/d/e/`, from `/d/`.
abbrev in_e : Session
in_e = record fresh {
  path = some 1;
  lastwp = some 0;
  sess = true;
  connected = true;
  heap = record {
    next = 2;
    cell =
        λ a. if a == 1 then some (codes "/d/e/") else if a == 0 then some (codes "/d/") else none;
  };
}

in_e-Paired : Paired in_e (codes "/d/e/") (codes "/d/")
in_e-Paired = record {
  p = 1;
  q = 0;
  path = refl;
  lastwp = refl;
  connected = refl;
  distinct = λ e. omega (arith, e);
  p_below = omega arith;
  q_below = omega arith;
  cells = λ a. refl;
}

open_d :
    open_at plain client settings false server (codes "d") (away false)
    ≡ some (at (codes "/d/") Last.absent, Report.opened)
unfolding check_address strcaseeq tolower
open_d = refl

open_silent :
    open_at plain client settings false silent (codes "d") (away false)
    ≡ some (away false, Report.could_not_connect)
unfolding check_address strcaseeq tolower
open_silent = refl

-- Where a session goes that opens, enters, goes back and is closed.
travels :
    travel plain client settings false resolve
      (away false)
      (open_url server (codes "d") ∷ cd getrestype (codes "e") ∷ cd getrestype (codes "-") ∷ [])
    ≡ some (at (codes "/d/") (Last.kept (codes "/d/e/")))
unfolding check_address streq strcaseeq tolower
travels = refl

-- An `open` from a collection that was entered leaves a session that cannot be closed.
reopened :
    travel plain client settings false resolve (away false) (
      open_url server (codes "d")
      ∷ cd getrestype (codes "e")
      ∷ open_url server (codes "d")
      ∷ close
      ∷ [])
    ≡ none
unfolding check_address streq strcaseeq tolower
reopened = refl

-- The second password opens the certificate.
setup_ssl_calls :
    setup_ssl client settings
    ≡ Call.trust_default_ca
      ∷ Call.set_verify
      ∷ Call.clicert_decrypt (codes "a")
      ∷ Call.clicert_decrypt (codes "b")
      ∷ Call.set_clicert
      ∷ Call.clicert_free
      ∷ []
unfolding setup_ssl unlock offered streq
setup_ssl_calls = refl

open_connection-Opens_example :
    Opens
      (open_connection plain client settings false server fresh (codes "d"))
      (open_at plain client settings false server (codes "d") (away false))
open_connection-Opens_example =
    open_connection-Opens plain client settings false server fresh (away false) (codes "d")
      fresh-Stands

run_session-Follows_example :
    Follows
      (run_session plain client settings false resolve fresh
        (open_url server (codes "d") ∷ cd getrestype (codes "e") ∷ close ∷ []))
      (travel plain client settings false resolve
        (away false)
        (open_url server (codes "d") ∷ cd getrestype (codes "e") ∷ close ∷ []))
run_session-Follows_example =
    run_session-Follows plain client settings false resolve fresh (away false)
      (open_url server (codes "d") ∷ cd getrestype (codes "e") ∷ close ∷ []) fresh-Stands

close-open_example :
    run_session plain client settings false resolve in_e (close ∷ open_url server (codes "d") ∷ [])
    ≡ none
close-open_example =
    close-open plain client settings false resolve in_e (codes "/d/e/") (codes "/d/") server
      (codes "d") in_e-Paired

open_connection-IsVerified_example :
    IsVerified (open_connection plain client settings false server fresh [])
open_connection-IsVerified_example =
    open_connection-IsVerified plain client settings false server fresh []
