-- ===== src/Neon/Samples.antt =====
-- A neon and a server for tests: no escapes, a reference that is absolute or below the current
-- collection, and a server that holds two collections and two files.
use cadaver.Common.{refl, true, false, [], ◌∷◌, ◌++◌, none, some, ◌&&◌, ◌||◌, ◌==◌, if◌then◌else◌}
use cadaver.Common.Text.{Bytes, codes, streq}
use cadaver.Neon.{Uri, Neon, ends_with_slash}
use cadaver.Listing.{ResourceType, resr_normal, resr_collection, Resource}
use cadaver.Resolve.{Answer, Site}

abbrev join : Bytes → Bytes → Bytes
join base [] = base
join base (c ∷ p) = if c == b'/' then c ∷ p else base ++ c ∷ p

abbrev pub plain : Neon
plain = record {
  path_escape = λ p. p;
  path_unescape = λ p. some p;
  path_has_trailing_slash = ends_with_slash;
  path_compare = streq;
  uri_resolve = λ base p. join base.path p;
  uri_cmp = λ a b. streq a.host b.host && streq a.path b.path;
  uri_defaultport = λ s. 80;
  trailing_slash_lem = λ p. refl;
}

abbrev pub resource : Bytes → ResourceType → Resource
resource p t = record {
  uri = p;
  type = t;
  size = 0;
  modtime = 0;
  is_executable = false;
  is_vcr = 0;
  error_reason = none;
  error_status = 0;
}

abbrev holds : ResourceType → Bytes → Answer
holds t p = record { list = some (resource p t ∷ []); location = none }

abbrev missing : Answer
missing = record { list = none; location = none }

abbrev pub here : Uri
here = record { scheme = codes "http"; host = codes "h"; port = 80; path = codes "/d/" }

-- `/d/sub` is redirected to `/d/sub/`; an answer for `/d/odd` lists nothing.
abbrev fetch : Bytes → Answer
fetch p =
    if streq p (codes "/d/") || streq p (codes "/d/sub/") || streq p (codes "/d/sub//")
    then holds resr_collection p
    else if streq p (codes "/d/a.txt") || streq p (codes "/d/b.txt")
    then holds resr_normal p
    else if streq p (codes "/d/sub")
    then record { list = none; location = some (record here { path = codes "/d/sub/" }) }
    else if streq p (codes "/d/odd")
    then record { list = some []; location = none }
    else missing

abbrev pub site : Site
site = record { current = here; server = here; utf8 = true; run_iconv = λ p. p; fetch = fetch }
