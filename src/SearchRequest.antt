-- ===== src/SearchRequest.antt =====
-- The `search` command of src/search.c as a whole: `execute_search`, `run_search`, the parts of the
-- body of the request, and `order_props_create`. The parser of the condition is the module Search,
-- the handlers of the response are the module SearchResponse.
pub mod Layout
pub mod Bodies
pub mod Shown
mod Tests
use cadaver.Common.{
  ℕ, suc, Bool, true, false, not, ◌||◌, List, [], ◌∷◌, ◌++◌, Option, none, some, ◌==◌, length,
  if◌then◌else◌,
}
use cadaver.Common.Text.{Bytes, codes}
use cadaver.Options.{Depth}
use cadaver.Search.{Result, ◌>>=◌}
use cadaver.Search.Grammar.{search_condition}
use cadaver.Search.Words.{Kind, read_aword}
use cadaver.SearchResponse.{Mapping, SearchCtx, new_ctx, Event, handle_all, Line, display_results}
use Result.{ne_ok, ne_error}

-- `ne_propname`.
pub record PropName : Type 0 where
  pub nspace : Bytes
  pub name : Bytes

abbrev pub eol : Bytes
eol = b'\n' ∷ []

-- `strtok` with the blanks of `order_props_create`: `word` is the token that is being read.
abbrev pub is_delimiter : ℕ → Bool
is_delimiter c = c == b' ' || c == 9 || c == 10 || c == 13

abbrev pub flush : Bytes → List Bytes → List Bytes
flush [] tokens = tokens
flush (c ∷ word) tokens = (c ∷ word) ∷ tokens

abbrev pub tokens_from : Bytes → Bytes → List Bytes
tokens_from word [] = flush word []
tokens_from word (c ∷ str) =
    let done = tokens_from [] str in
    let on = tokens_from (word ++ c ∷ []) str in if is_delimiter c then flush word done else on

abbrev pub dav_props : List Bytes → List PropName
dav_props [] = []
dav_props (tok ∷ toks) = (record { nspace = codes "DAV:"; name = tok }) ∷ dav_props toks

-- NULL where there is no name.
abbrev pub props_or_null : List PropName → Option (List PropName)
props_or_null [] = none
props_or_null (p ∷ props) = some (p ∷ props)

unfoldable pub order_props_create : Option Bytes → Option (List PropName)
order_props_create none = none
order_props_create (some str) = props_or_null (dav_props (tokens_from [] str))

-- An empty element with its namespace.
abbrev pub empty_element : PropName → Bytes
empty_element p = codes "<" ++ p.name ++ codes " xmlns=\"" ++ p.nspace ++ codes "\"/>" ++ eol

abbrev pub empty_elements : List PropName → Bytes
empty_elements [] = []
empty_elements (p ∷ props) = empty_element p ++ empty_elements props

abbrev pub search_select_gen : Option (List PropName) → Bytes
search_select_gen none = codes "<D:select><D:allprop/></D:select>" ++ eol
search_select_gen (some props) =
    codes "<D:select><D:prop>" ++ eol ++ empty_elements props ++ codes "</D:prop></D:select>" ++ eol

abbrev pub depth_str : Depth → Bytes
depth_str Depth.depth_one = codes "1"
depth_str Depth.depth_zero = codes "0"
depth_str Depth.depth_infinite = codes "infinity"

abbrev pub search_from_gen : Bytes → Depth → Bytes
search_from_gen href depth =
    codes "<D:from><D:scope><D:href>"
    ++ href
    ++ codes "</D:href><D:depth>"
    ++ depth_str depth
    ++ codes "</D:depth></D:scope></D:from>"
    ++ eol

abbrev pub is_endbuf : Kind → Bool
is_endbuf Kind.endbuf = true
is_endbuf _ = false

abbrev pub where_part : Bytes → Bytes
where_part condition = codes "<D:where>" ++ eol ++ condition ++ codes "</D:where>" ++ eol

-- The condition has to end where the string does.
unfoldable pub search_where_gen : Bytes → Result Bytes
search_where_gen condition_str = do
  p ← search_condition (suc (length condition_str)) condition_str
  w ← read_aword p.rest
  (if is_endbuf w.kind then ne_ok (where_part p.buf) else ne_error)

abbrev pub order_part : Bytes → PropName → Bytes
order_part direction p =
    codes "<D:order><D:prop>"
    ++ eol
    ++ empty_element p
    ++ codes "</D:prop><D:"
    ++ direction
    ++ codes "/></D:order>"
    ++ eol

abbrev pub order_parts : Bytes → Option (List PropName) → Bytes
order_parts direction none = []
order_parts direction (some []) = []
order_parts direction (some (p ∷ props)) =
    order_part direction p ++ order_parts direction (some props)

abbrev pub orderby_part : Option (List PropName) → Option (List PropName) → Bytes
orderby_part asc des =
    codes "<D:orderby>"
    ++ eol
    ++ order_parts (codes "ascending") asc
    ++ order_parts (codes "descending") des
    ++ codes "</D:orderby>"
    ++ eol

abbrev pub search_orderby_gen : Option (List PropName) → Option (List PropName) → Bytes
search_orderby_gen none none = []
search_orderby_gen (some asc) des = orderby_part (some asc) des
search_orderby_gen none (some des) = orderby_part none (some des)

pub record SearchRequest : Type 0 where
  pub uri : Bytes
  pub depth : Depth
  pub body : Bytes

-- The answer of the server: whether `ne_request_dispatch` gives NE_OK, the status, and the calls of
-- the handlers, which neon makes for a response of 207 only.
pub record Answer : Type 0 where
  pub dispatched : Bool
  pub code : ℕ
  pub events : List Event

-- The options and globals that a search reads.
pub record SearchOptions : Type 0 where
  pub searchall : Bool
  pub searchorder : Option Bytes
  pub searchdorder : Option Bytes
  pub searchdepth : Depth

abbrev pub body_of : Bytes → Depth → Option (List PropName) → Option (List PropName) → Bytes → Bytes
body_of uri depth asc des condition =
    codes "<?xml version=\"1.0\" encoding=\"utf-8\" ?>"
    ++ eol
    ++ codes "<D:searchrequest xmlns:D=\"DAV:\"><D:basicsearch>"
    ++ eol
    ++ search_select_gen none
    ++ search_from_gen uri depth
    ++ condition
    ++ search_orderby_gen asc des
    ++ codes "</D:basicsearch></D:searchrequest>"
    ++ eol

-- The request that `run_search` makes of a query, if it makes one.
unfoldable pub search_request : SearchOptions → Bytes → Bytes → Result SearchRequest
search_request o uri query = do
  condition ← search_where_gen query
  ne_ok (record {
    uri = uri;
    depth = o.searchdepth;
    body =
        body_of uri o.searchdepth (order_props_create o.searchorder)
          (order_props_create o.searchdorder) condition;
  })

-- The words of the command; one with a blank is quoted.
abbrev pub has_blank : Bytes → Bool
has_blank [] = false
has_blank (c ∷ arg) = c == b' ' || c == 9 || has_blank arg

abbrev pub quoted : Bytes → Bytes
quoted arg = if has_blank arg then codes "'" ++ arg ++ codes "' " else arg ++ codes " "

unfoldable pub query_of : List Bytes → Bytes
query_of [] = []
query_of (arg ∷ args) = quoted arg ++ query_of args

-- How the command ends, with the lines it shows; `refused` sends no request and `crashed` is a write
-- through NULL in a handler.
pub data Ending : Type 0 where
  refused : Ending
  failed : Ending
  shown : List Line → Ending
  crashed : Ending

module _ (m : Mapping) (o : SearchOptions) where
  abbrev pub finish : Answer → List Bool → Option SearchCtx → Ending
  finish a answers none = crashed
  finish a answers (some sctx) =
      if not a.dispatched || sctx.failed || not (a.code == 207)
      then failed
      else shown (display_results o.searchall sctx answers)

  -- `run_search` from the request on, and the display of what it returns.
  abbrev pub answered : (SearchRequest → Answer) → List Bool → Result SearchRequest → Result Ending
  answered server answers (ne_ok r) =
      let a = server r in ne_ok (finish a answers (handle_all o.searchall m a.events new_ctx))
  answered server answers ne_error = ne_ok refused
  answered server answers Result.overflow = Result.overflow
  answered server answers Result.no_fuel = Result.no_fuel

  unfoldable pub execute_search :
      Bytes → (SearchRequest → Answer) → List Bool → List Bytes → Result Ending
  unfolding search_request query_of
  execute_search uri server answers args =
      answered server answers (search_request o uri (query_of args))
