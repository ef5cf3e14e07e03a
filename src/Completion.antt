-- ===== src/Completion.antt =====
-- The completion of names in src/cadaver.c: the cache of listings, the generator of the names on the
-- server, and the choice of a generator; `native_path_from_uri` of src/commands.c.
pub mod Candidates
pub mod Fresh
mod Tests
use cadaver.Commands.{Command, CommandId, Scope, get_command}
use cadaver.Common.{
  ◌>>=◌, ℕ, zero, suc, ◌+◌, Bool, true, false, ◌&&◌, List, [], ◌∷◌, ◌++◌, Option, none, some, ltb,
  ◌==◌, length, if◌then◌else◌,
}
use cadaver.Common.Text.{Bytes, streq}
use cadaver.Listing.{Resource}
use cadaver.Neon.{Neon}
use cadaver.Resolve.{Site, uri_resolve_native, uri_resolve_native_coll}

-- `struct completion_cache`.
pub record CompletionCache : Type 0 where
  pub list : List Resource
  pub expiry : ℕ
  pub path : Option Bytes

abbrev pub empty_cache : CompletionCache
empty_cache = record { list = []; expiry = 0; path = none }

-- The static variables of the generator.
pub record Statics : Type 0 where
  pub cache : CompletionCache
  pub current : List Resource
  pub text_uri_path : Bytes

-- What the generator meets: the session with its current path, `native_from_utf8`, the time before
-- and after the request, and `fetch_resource_list` at depth 1.
pub record Scene : Type 0 where
  pub site : Site
  pub path : Bytes
  pub native_from_utf8 : Bytes → Bytes
  pub now : ℕ
  pub later : ℕ
  pub fetch : Bytes → Option (List Resource)

abbrev pub refill : Scene → Bytes → CompletionCache
refill s uri_path = elim (s.fetch uri_path) [
  | none ↦ empty_cache
  | some list ↦ record { list = list; expiry = s.later + 10; path = some uri_path }
]

-- A `none` is a comparison with a NULL path.
unfoldable pub refresh_completion_cache : Scene → Bytes → CompletionCache → Option CompletionCache
refresh_completion_cache s uri_path cache =
    if ltb cache.expiry s.now
    then some (refill s uri_path)
    else (cache.path >>= λ p. some (if streq uri_path p then cache else refill s uri_path))

-- `strncmp (a, b, strlen (a)) == 0`.
abbrev pub is_prefix : Bytes → Bytes → Bool
is_prefix [] b = true
is_prefix (x ∷ a) [] = false
is_prefix (x ∷ a) (y ∷ b) = x == y && is_prefix a b

abbrev pub skip : ℕ → Bytes → Bytes
skip zero b = b
skip (suc n) [] = []
skip (suc n) (x ∷ b) = skip n b

-- The text before the last slash, if there is one.
abbrev pub before_slash : Bytes → Option Bytes
before_slash [] = none
before_slash (c ∷ text) = elim (before_slash text) [
  | some root ↦ some (c ∷ root)
  | none ↦ if c == b'/' then some [] else none
]

module _ (n : Neon) (s : Scene) where
  unfoldable pub native_path_from_uri : Bytes → Option Bytes
  native_path_from_uri uri_path = do
    utf8 ← n.path_unescape uri_path
    some (if s.site.utf8 then utf8 else s.native_from_utf8 utf8)

  -- The name that is offered for a resource: without the current path where it is below that.
  abbrev pub offered : Bytes → Option Bytes
  unfolding native_path_from_uri
  offered uri =
      if ltb (length s.path) (length uri) && is_prefix s.path uri
      then native_path_from_uri (skip (length s.path) uri)
      else native_path_from_uri uri

  -- The loop of the generator: the next match, and the rest of the list.
  unfoldable pub next_match : Bytes → List Resource → Option Bytes × List Resource
  unfolding native_path_from_uri
  next_match text_uri_path [] = (none, [])
  next_match text_uri_path (r ∷ current) =
      let later = next_match text_uri_path current in
      if is_prefix text_uri_path r.uri
      then elim (offered r.uri) [ some name ↦ (some name, current) | none ↦ later ]
      else later

  abbrev pub root_path : Bytes → Bytes
  root_path text = elim (before_slash text) [
    | some native_root ↦ uri_resolve_native_coll n s.site native_root
    | none ↦ s.path
  ]

  -- The part of the generator for the state zero.
  unfoldable pub begin_completion : Bytes → Statics → Option Statics
  unfolding refresh_completion_cache
  begin_completion text v = do
    cache ← refresh_completion_cache s (root_path text) v.cache
    some (record {
      cache = cache;
      current = cache.list;
      text_uri_path = uri_resolve_native n s.site text;
    })

  abbrev pub advance : Statics → Option Bytes × Statics
  unfolding next_match
  advance v =
      let (ret, rest) = next_match v.text_uri_path v.current in (ret, record v { current = rest })

  unfoldable pub remote_completion : Bytes → Bool → Statics → Option (Option Bytes × Statics)
  unfolding begin_completion advance
  remote_completion text true v = begin_completion text v >>= λ v. some (advance v)
  remote_completion text false v = some (advance v)

  -- At most `calls` further calls, until one gives NULL: the names, and whether NULL was met.
  unfoldable pub further : ℕ → Bytes → Statics → Option (List Bytes × Bool)
  unfolding remote_completion
  further zero text v = some ([], false)
  further (suc calls) text v = do
    r ← remote_completion text false v
    (let next = further calls text r.1 in
        elim r.0 [ none ↦ some ([], true) | some name ↦ next >>= λ x. some (name ∷ x.0, x.1) ])

  -- The calls that readline makes for one word: the state is zero in the first one only.
  unfoldable pub generated : ℕ → Bytes → Statics → Option (List Bytes × Bool)
  unfolding further
  generated zero text v = some ([], false)
  generated (suc calls) text v = do
    r ← remote_completion text true v
    (elim r.0 [
      | none ↦ some ([], true)
      | some name ↦ further calls text r.1 >>= λ x. some (name ∷ x.0, x.1)
    ])

-- `command_generator` of src/commands.c: the next name, and the names after it.
unfoldable pub command_generator :
    Bytes → List (CommandId × Bytes) → Option Bytes × List (CommandId × Bytes)
command_generator text [] = (none, [])
command_generator text ((id, name) ∷ names) =
    let later = command_generator text names in
    if is_prefix text name then (some name, names) else later

-- The generator that `completion` chooses; `line` is what stands in the buffer and `start` where the
-- word begins.
pub data Generator : Type 0 where
  command_names local_names remote_names nothing : Generator

abbrev pub first_word : Bytes → Option Bytes
first_word [] = none
first_word (c ∷ line) = elim (first_word line) [
  | some word ↦ some (if c == b' ' then [] else c ∷ word)
  | none ↦ if c == b' ' then some [] else none
]

abbrev pub scope_of : Option Command → Scope
scope_of none = Scope.parmscope_none
scope_of (some cmd) = cmd.scope

abbrev pub generator_of : Bool → Scope → Generator
generator_of connected Scope.parmscope_none = nothing
generator_of connected Scope.parmscope_local = local_names
generator_of connected Scope.parmscope_option = nothing
generator_of connected Scope.parmscope_remote = if connected then remote_names else nothing

unfoldable pub completion : Bool → Bytes → ℕ → Generator
completion connected line zero = command_names
completion connected line (suc start) = elim (first_word line) [
  | none ↦ nothing
  | some cname ↦ generator_of connected (scope_of (get_command cname))
]
