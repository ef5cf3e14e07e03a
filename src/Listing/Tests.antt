-- ===== src/Listing/Tests.antt =====
-- A listing of three resources, and instances of the theorems about listings.
use mathlib.Core.List.{Perm}
use cadaver.Common.{ℕ, ◌≡◌, refl, Bool, true, false, List, [], ◌∷◌, none, some}
use cadaver.Common.Text.{Bytes, codes, streq}
use cadaver.Listing.Contents.{reported, collect-perm}
use cadaver.Listing.Order.{IsSorted, collect-IsSorted}
use cadaver.Listing.Display.{Restype, Vcr, LsLine, shown_path, display_ls_line, execute_ls}
use cadaver.Listing.Elements.{ElmState, ls_startelm}
use cadaver.Neon.{ends_with_slash}
use cadaver.Neon.Samples.{resource}
use cadaver.Listing.{Resource, ResourceType, Response, compare_resource, strcmp, collect, newres}

abbrev digit : Bytes → ℕ × Bytes
digit [] = (0, [])
digit (c ∷ s) = (7, s)

abbrev epoch : Bytes → ℕ
epoch v = 0

abbrev response : Bytes → Bool → Response
response p c = record {
  path = p;
  collection = c;
  clength = some (codes "7");
  modtime = some (codes "now");
  isexec = some (codes "t");
  checkin = none;
  checkout = none;
  clength_status = none;
  modtime_status = none;
}

abbrev responses : List Response
responses =
    response (codes "/b") false
    ∷ response (codes "/") true
    ∷ response (codes "/z/") true
    ∷ response (codes "/a") false
    ∷ []

abbrev uris : List Resource → List Bytes
uris [] = []
uris (r ∷ l) = r.uri ∷ uris l

listing :
    uris (collect digit epoch streq (codes "/") false [] responses)
    ≡ codes "/z/" ∷ codes "/a" ∷ codes "/b" ∷ []
unfolding collect newres compare_resource strcmp streq
listing = refl

collect-IsSorted_example : IsSorted (collect digit epoch streq (codes "/") false [] responses)
collect-IsSorted_example = collect-IsSorted digit epoch streq (codes "/") false [] responses tt

collect-perm_example :
    Perm
      (collect digit epoch streq (codes "/") false [] responses)
      (reported digit epoch streq (codes "/") false responses)
collect-perm_example = collect-perm digit epoch streq (codes "/") false responses

-- A collection and an error, and the collection itself, which is left out.
listed_lines :
    execute_ls ends_with_slash
      (λ p. some p)
      (codes "/d/")
      (some (
        resource (codes "/d/sub/") ResourceType.resr_collection
        ∷ resource (codes "/d/x") ResourceType.resr_error
        ∷ resource (codes "/d/") ResourceType.resr_collection
        ∷ []))
    ≡ some (
        LsLine.shown Restype.collection Vcr.no_vcr false (some (codes "sub")) 0 0
        ∷ LsLine.error (some (codes "x")) 0 none
        ∷ [])
unfolding execute_ls display_ls_line shown_path
listed_lines = refl

abbrev unknown : Resource
unknown = resource (codes "/d/") ResourceType.resr_normal

-- A collection element counts inside of a resourcetype only.
nested_collection :
    (ls_startelm ElmState.resourcetype (codes "DAV:") (codes "collection") (some unknown)
      ≡ (ElmState.collection, some (resource (codes "/d/") ResourceType.resr_collection)))
    × (ls_startelm ElmState.state_prop (codes "DAV:") (codes "collection") (some unknown)
        ≡ (ElmState.declined, some unknown))
unfolding ls_startelm streq
nested_collection = (refl, refl)
