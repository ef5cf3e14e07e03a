-- ===== src/Resolve.antt =====
-- From what the user types to a path on the server: `path_native_resolver`, `uri_resolve_native`,
-- `uri_resolve_native_coll` and `uri_resolve_native_true` of src/commands.c, and `getrestype` of
-- src/utils.c.
pub mod Slashes
use cadaver.Common.{
  ℕ, ◌≡◌, Bool, true, false, not, ◌&&◌, List, [], ◌∷◌, ◌++◌, Option, none, some, ◌==◌,
  if◌then◌else◌,
}
use cadaver.Common.Text.{Bytes}
use cadaver.Listing.{ResourceType, resr_normal, resr_error, Resource, is_collection}
use cadaver.Neon.{Uri, Neon}

-- What a request answers: the status NE_OK with the list of resources, or any failure; and the
-- redirect location that the session then holds.
pub record Answer : Type 0 where
  pub list : Option (List Resource)
  pub location : Option Uri

-- The session and its surroundings while one command resolves its arguments: the current
-- collection, the server's own URI, the `utf8` option, `run_iconv` to UTF-8, and the server as the
-- function from paths to the answers of `fetch_resource_list` at depth 0.
pub record Site : Type 0 where
  pub current : Uri
  pub server : Uri
  pub utf8 : Bool
  pub run_iconv : Bytes → Bytes
  pub fetch : Bytes → Answer

-- `none` is the read through the NULL list when the answer holds no resource.
unfoldable pub getrestype : Neon → Site → Bytes → Option ResourceType
getrestype n s uri_path = elim (s.fetch uri_path).list [
  | none ↦ some resr_error
  | some [] ↦ none
  | some (res ∷ _) ↦ some (if n.path_compare uri_path res.uri then res.type else resr_error)
]

abbrev pub utf8_from_native : Site → Bytes → Bytes
utf8_from_native s native = if not s.utf8 then s.run_iconv native else native

abbrev pub add_slash : Neon → Bytes → Bytes
add_slash n p = if not (n.path_has_trailing_slash p) then p ++ b'/' ∷ [] else p

pub path_native_resolver : Neon → Site → Bytes → Bool → Bytes
path_native_resolver n s native_path collection =
    let relative = n.path_escape (utf8_from_native s native_path) in
    n.uri_resolve s.current (if collection then add_slash n relative else relative)

unfoldable pub uri_resolve_native : Neon → Site → Bytes → Bytes
unfolding path_native_resolver
uri_resolve_native n s native = path_native_resolver n s native false

unfoldable pub uri_resolve_native_coll : Neon → Site → Bytes → Bytes
unfolding path_native_resolver
uri_resolve_native_coll n s native = path_native_resolver n s native true

-- The server's URI with the path of the redirection, and no port where that is the default.
abbrev pub own_uri : Neon → Site → Bytes → Uri
own_uri n s path = record (s.server) {
  path = path;
  port = if s.server.port == n.uri_defaultport s.server.scheme then 0 else s.server.port;
}

-- Whether the redirection goes to a collection of the same server.
abbrev pub follows : Neon → Site → Option Uri → Bool
follows n s none = false
follows n s (some redir) =
    n.path_has_trailing_slash redir.path && n.uri_cmp redir (own_uri n s redir.path)

abbrev pub location_path : Option Uri → Bytes → Bytes
location_path none uri_path = uri_path
location_path (some redir) uri_path = redir.path

-- The path and whether it is a collection's, after the type of the resource is known.
abbrev pub finish_true : Neon → Bytes → Option ResourceType → Option (Bytes × Bool)
finish_true n uri_path none = none
finish_true n uri_path (some t) =
    some (if is_collection t then add_slash n uri_path else uri_path, is_collection t)

abbrev pub redirected : Neon → Site → Bytes → Option ResourceType → Option (Bytes × Bool)
redirected n s uri_path none = none
redirected n s uri_path (some t) =
    let location = (s.fetch uri_path).location in
    let target = location_path location uri_path in
    if not (is_collection t) && follows n s location
    then finish_true n target (getrestype n s target)
    else finish_true n uri_path (some t)

unfoldable pub uri_resolve_native_true : Neon → Site → Bytes → Option (Bytes × Bool)
uri_resolve_native_true n s path =
    let uri_path = uri_resolve_native n s path in redirected n s uri_path (getrestype n s uri_path)
