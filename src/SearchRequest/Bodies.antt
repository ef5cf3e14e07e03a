-- ===== src/SearchRequest/Bodies.antt =====
-- The bodies of the requests that a search sends.
use cadaver.Common.{◌≡◌, ◌∙◌, refl, [], ap, Bool, true, false, suc, length, if◌then◌else◌}
use cadaver.Common.Text.{Bytes}
use cadaver.Search.{Result, Parsed, Ensures, Ensures-bind}
use cadaver.Search.Grammar.{search_condition}
use cadaver.Search.Ends.{Consumes, read_aword-Consumes}
use cadaver.Search.Accepted.{search_condition-Accepts}
use cadaver.Search.Predicates.{Accepts}
use cadaver.Search.Trees.{Tree, render}
use cadaver.Search.Words.{read_aword}
use cadaver.SearchRequest.Layout.{print, document, body_of-document}
use cadaver.SearchRequest.{
  SearchOptions, SearchRequest, is_endbuf, where_part, search_where_gen, order_props_create,
  body_of, search_request,
}
use Result.{ne_ok, ne_error}

-- A condition that is the rendering of a tree.
abbrev pub IsWhere : Bytes → Type 0
IsWhere condition = (t : Tree) × (condition ≡ where_part (render t))

search_where_gen-IsWhere : (s : Bytes) → Ensures IsWhere (search_where_gen s)
unfolding search_where_gen
search_where_gen-IsWhere s =
    Ensures-bind (Accepts s) IsWhere (search_condition (suc (length s)) s) _
      (search_condition-Accepts s)
      (λ p a.
        Ensures-bind (Consumes p.rest) IsWhere (read_aword p.rest) _ (read_aword-Consumes p.rest)
          (λ w u. ended (is_endbuf w.kind) p a.1.0 a.1.1))
  where
    ended :
        (b : Bool) (p : Parsed) (t : Tree)
        → p.buf ≡ render t
        → Ensures IsWhere (if b then ne_ok (where_part p.buf) else ne_error)
    ended true p t e = (t, ap where_part e)
    ended false p t e = tt

-- The request is for the path and the depth of the search, and its body is the text of a document with
-- that path and depth as its scope, a tree as its condition and the properties to order by.
abbrev pub IsSearch : SearchOptions → Bytes → SearchRequest → Type 0
IsSearch o uri r =
    (r.uri ≡ uri)
    × (r.depth ≡ o.searchdepth)
    × (t : Tree) × (r.body
        ≡ print
            (document uri o.searchdepth (order_props_create o.searchorder)
              (order_props_create o.searchdorder) t)
            [])

-- Every query ends in a word that overflows its buffer, in no request at all, or in a request for
-- the path and the depth of the search. Its body is the text of a `searchrequest` document, element
-- by element: all properties, the scope with the path and the depth (`0`, `1` or `infinity`), the
-- rendering of a tree as the condition, and an `order` for each property to order by.
pub search_request-IsSearch :
    (o : SearchOptions) (uri query : Bytes) → Ensures (IsSearch o uri) (search_request o uri query)
unfolding search_request
search_request-IsSearch o uri query =
    Ensures-bind IsWhere (IsSearch o uri) (search_where_gen query) _
      (search_where_gen-IsWhere query)
      (λ condition w. (
        refl,
        refl,
        w.0,
        ap
              (body_of uri o.searchdepth (order_props_create o.searchorder)
                (order_props_create o.searchdorder))
              w.1
            ∙ body_of-document uri o.searchdepth (order_props_create o.searchorder)
                (order_props_create o.searchdorder) w.0,
      ))
