-- ===== src/SearchRequest/Tests.antt =====
-- A search from its words to its display, and instances of the theorems on it.
use cadaver.Common.{◌≡◌, refl, true, List, [], ◌∷◌, none, some}
use cadaver.Common.Text.{Bytes, codes}
use cadaver.Options.{Depth}
use cadaver.Search.{Result, Ensures}
use cadaver.Search.Grammar.{comparison}
use cadaver.SearchRequest.{
  SearchOptions, SearchRequest, Answer, Ending, order_props_create, body_of, where_part,
  search_request,
}
use cadaver.SearchRequest.Bodies.{IsSearch, search_request-IsSearch}
use cadaver.SearchResponse.Documents.{document_events}
use cadaver.SearchResponse.Samples.{items}

abbrev options : SearchOptions
options = record {
  searchall = true;
  searchorder = some (codes "size  name");
  searchdorder = none;
  searchdepth = Depth.depth_infinite;
}

abbrev words : List Bytes
words = codes "size" ∷ codes "=" ∷ codes "5" ∷ []

abbrev sent : SearchRequest
sent = record {
  uri = codes "/d/";
  depth = Depth.depth_infinite;
  body =
      body_of (codes "/d/") Depth.depth_infinite (order_props_create (some (codes "size  name")))
        (order_props_create none) (where_part (comparison (codes "eq") (codes "size") (codes "5")));
}

-- A server that has the two sample resources.
abbrev server : SearchRequest → Answer
server r = record { dispatched = true; code = 207; events = document_events items }

two_props :
    order_props_create (some (codes "size  name"))
    ≡ some (
        record { nspace = codes "DAV:"; name = codes "size" }
        ∷ record { nspace = codes "DAV:"; name = codes "name" }
        ∷ [])
unfolding order_props_create
two_props = refl

search_request-IsSearch_example :
    Ensures
      (IsSearch options (codes "/d/"))
      (search_request options (codes "/d/") (codes "size = 5"))
search_request-IsSearch_example = search_request-IsSearch options (codes "/d/") (codes "size = 5")
