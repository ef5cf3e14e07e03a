-- ===== src/Completion/Tests.antt =====
-- Completions on a small collection, and instances of the theorems on them.
use cadaver.Commands.{get_command}
use cadaver.Common.{◌≡◌, refl, ℕ, true, false, List, [], ◌∷◌, none, some, arith, if◌then◌else◌}
use cadaver.Common.Text.{Bytes, codes, streq, strcaseeq, tolower}
use cadaver.Completion.{
  Statics, Scene, Generator, empty_cache, begin_completion, generated, completion, root_path,
  native_path_from_uri, next_match, refresh_completion_cache, further, remote_completion,
}
use cadaver.Completion.Candidates.{candidates, generated-candidates}
use cadaver.Completion.Fresh.{IsFilled, IsFresh, begin_completion-IsFresh}
use cadaver.Listing.{Resource, ResourceType}
use cadaver.Neon.Samples.{plain, site, resource}
use cadaver.Resolve.{uri_resolve_native}

-- What stands in `/d/`.
abbrev listed : List Resource
listed =
    resource (codes "/d/ab") ResourceType.resr_normal
    ∷ resource (codes "/d/b") ResourceType.resr_normal
    ∷ resource (codes "/d/ac") ResourceType.resr_normal
    ∷ []

abbrev scene : Scene
scene = record {
  site = site;
  path = codes "/d/";
  native_from_utf8 = λ p. p;
  now = 5;
  later = 6;
  fetch = λ p. if streq p (codes "/d/") then some listed else none;
}

abbrev at_start : Statics
at_start = record { cache = empty_cache; current = []; text_uri_path = [] }

abbrev begun : Statics
begun = record {
  cache = record { list = listed; expiry = 16; path = some (codes "/d/") };
  current = listed;
  text_uri_path = codes "/d/a";
}

begun_lem : begin_completion plain scene (codes "a") at_start ≡ some begun
unfolding begin_completion refresh_completion_cache uri_resolve_native streq
begun_lem = refl

two_names : generated plain scene 4 (codes "a") at_start ≡ some (codes "ab" ∷ codes "ac" ∷ [], true)
unfolding generated further remote_completion begin_completion refresh_completion_cache next_match
    native_path_from_uri uri_resolve_native streq
two_names = refl

-- A command with arguments on the server is completed from the server, with a connection only.
cd_remote :
    (completion true (codes "cd x") 3 ≡ Generator.remote_names)
    × (completion false (codes "cd x") 3 ≡ Generator.nothing)
unfolding completion get_command strcaseeq tolower
cd_remote = (refl, refl)

generated-candidates_example :
    generated plain scene 4 (codes "a") at_start
    ≡ some (candidates plain scene (codes "/d/a") listed, true)
generated-candidates_example =
    generated-candidates plain scene 3 (codes "a") at_start begun begun_lem (omega arith)

-- All that is seen is what the scene answers.
abbrev Seen : Bytes → ℕ → List Resource → Type 0
Seen p t l = scene.fetch p ≡ some l

begin_completion-IsFresh_example :
    (v' : Statics) × (begin_completion plain scene (codes "a") at_start ≡ some v')
    × IsFilled Seen v'.cache
    × IsFresh Seen (root_path plain scene (codes "a")) 5 v'.current
begin_completion-IsFresh_example =
    begin_completion-IsFresh Seen scene plain (codes "a") at_start (λ p l e. e) (omega arith)
      (omega arith) (IsFilled.unfilled refl refl)
