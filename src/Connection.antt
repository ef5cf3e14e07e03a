-- ===== src/Connection.antt =====
-- `open_connection` and `setup_ssl` of src/cadaver.c, on the session of the module Session: the parts
-- of the URL, the calls that set a neon session up, and what is done with the server's answer.
pub mod Setup
pub mod Verified
pub mod Places
pub mod Commands
pub mod Closing
pub mod Opening
pub mod Moves
pub mod Runs
mod Tests
use cadaver.Common.{
  ◌>>=◌, ℕ, ◌+◌, ◌≡◌, ◌⊎◌, inl, inr, Bool, true, false, not, ◌&&◌, ◌||◌, List, [], ◌∷◌, ◌++◌,
  Option, none, some, ◌==◌, if◌then◌else◌,
}
use cadaver.Common.Text.{Bytes, codes, strcaseeq}
use cadaver.Connection.Setup.{Call, Settings, Client, configure, setup_ssl}
use cadaver.Listing.{ResourceType}
use cadaver.Neon.{Uri, Neon}
use cadaver.Session.{Heap, Session, alloc, free, set_path, close_connection}

-- What `ne_uri_parse` leaves in `session.uri`, and whether it failed.
pub record Address : Type 0 where
  pub failed : Bool
  pub scheme : Option Bytes
  pub userinfo : Option Bytes
  pub host : Option Bytes
  pub port : ℕ
  pub path : Option Bytes

-- What `ne_options2` returns, with the capabilities where it succeeds.
pub data Reply : Type 0 where
  ok : ℕ → Reply
  connect lookup other : Reply

-- What the user is told.
pub data Report : Type 0 where
  opened could_not_parse user_info no_ssl not_supported no_class1 not_webdav could_not_connect :
      Report
  no_address could_not_open : Report

-- The network and neon, as one call of `open_connection` finds them; `class1` tests the flag
-- NE_CAP_DAV_CLASS1, and a `getrestype` of `none` is the fault of that function.
pub record Server : Type 0 where
  pub uri_parse : Bytes → Address
  pub has_ssl : Bool
  pub options2 : Uri → Bytes → Reply
  pub class1 : ℕ → Bool
  pub getrestype : Bytes → Option ResourceType

pub record Opened : Type 0 where
  pub session : Session
  pub report : Report
  pub calls : List Call

abbrev pub fail : Report → List Call → Session → Option Opened
fail r calls s = do s ← close_connection s; some (record { session = s; report = r; calls = calls })

-- The path of `session.uri`, a string of its own.
abbrev pub store_path : Option Bytes → Session → Session
store_path none s = record s { path = none }
store_path (some path) s = let (p, h) = alloc path s.heap in record s { path = some p; heap = h }

-- The new string takes the place of the old one, which is freed.
abbrev pub replace_path : Session → ℕ → ℕ × Heap → Option Session
replace_path s p (pnt, h) = do h ← free p h; some (record s { path = some pnt; heap = h })

-- A path without a trailing slash is replaced by a copy with one.
abbrev pub terminated : Neon → Session → Option Session
terminated n s = do
  p ← s.path
  path ← s.heap.cell p
  (if n.path_has_trailing_slash path
      then some s
      else replace_path s p (alloc (path ++ codes "/") s.heap))

-- The tests of the URL, with the default port for none.
abbrev pub parts :
    Neon → Option Bytes → Option Bytes → Option Bytes → Option Bytes → ℕ → Report ⊎ Uri
parts n (some path) (some scheme) (some host) none port = inr (record {
  scheme = scheme;
  host = host;
  port = if port == 0 then n.uri_defaultport scheme else port;
  path = path;
})
parts n (some path) (some scheme) (some host) (some userinfo) port = inl user_info
parts n _ _ _ _ _ = inl could_not_parse

unfoldable pub check_address : Neon → Address → Report ⊎ Uri
check_address n a =
    if a.failed then inl could_not_parse else parts n a.path a.scheme a.host a.userinfo a.port

-- The calls that make the session and secure it, or the scheme that cannot be used.
abbrev pub scheme_calls : Client → Settings → Bool → Uri → (Report × List Call) ⊎ List Call
scheme_calls c o has_ssl u =
    let create = Call.session_create u.scheme u.host u.port in
    if strcaseeq u.scheme (codes "https")
    then (if has_ssl then inr (create ∷ setup_ssl c o) else inl (no_ssl, create ∷ []))
    else if strcaseeq u.scheme (codes "http")
    then inr (create ∷ [])
    else inl (not_supported, create ∷ [])

module _ (n : Neon) (c : Client) (o : Settings) (tolerant : Bool) (server : Server) where
  -- The result of `set_path`.
  abbrev pub settle : List Call → Session → Option Bool → Option Opened
  settle calls s none = fail not_webdav calls s
  settle calls s (some isdav) = some (record {
    session = record s { isdav = isdav; connected = true };
    report = opened;
    calls = calls;
  })

  -- The answer to OPTIONS, for a session whose path is `path`.
  abbrev pub on_options : List Call → Bytes → Session → Reply → Option Opened
  on_options calls path s connect = fail could_not_connect calls s
  on_options calls path s lookup = fail no_address calls s
  on_options calls path s other = fail could_not_open calls s
  on_options calls path s (ok caps) =
      if not (server.class1 caps) && not tolerant
      then fail no_class1 calls (record s { caps = caps })
      else (do
        t ← server.getrestype path
        settle calls (record s { caps = caps }) (set_path tolerant t))

  -- The calls that set the session up, then the first request.
  abbrev pub contact : Uri → Session → (Report × List Call) ⊎ List Call → Option Opened
  contact u s (inl refused) = fail refused.0 refused.1 s
  contact u s (inr calls) = do
    p ← s.path
    path ← s.heap.cell p
    on_options (calls ++ configure c o ++ Call.options u path ∷ []) path
        (record s { connected = false; caps = 0 }) (server.options2 u path)

  abbrev pub proceed : Report ⊎ Uri → Session → Option Opened
  proceed (inl r) s = fail r [] s
  proceed (inr u) s = do
    s ← terminated n s
    contact u (record s { server = some u; sess = true }) (scheme_calls c o server.has_ssl u)

  unfoldable pub open_connection : Session → Bytes → Option Opened
  unfolding check_address
  open_connection s url = do
    s ← close_connection s
    let a = server.uri_parse url
    proceed (check_address n a) (store_path a.path s)
