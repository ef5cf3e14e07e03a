-- ===== src/SearchResponse.antt =====
-- The response of a search in src/search.c: the handlers `start_element`, `cdata_search` and
-- `end_element`, which neon's XML parser calls, the list of results they build, and
-- `display_results`, which shows it in pages.
pub mod Documents
pub mod Dead
pub mod Parts
pub mod Handled
pub mod Pages
pub mod Samples
mod Tests
use cadaver.Common.{
  ◌>>=◌, ℕ, zero, suc, ◌+◌, ◌%◌, ◌≡◌, Bool, true, false, not, ◌&&◌, ◌||◌, List, [], ◌∷◌, ◌++◌,
  Option, none, some, ltb, ◌==◌, if◌then◌else◌, take,
}
use cadaver.Common.Text.{Bytes, codes}

pub data Live : Type 0 where
  creationdate displayname getcontentlanguage getcontentlength getcontenttype getetag : Live
  getlastmodified lockdiscovery resourcetype source supportedlock collection : Live

abbrev pub live_name : Live → Bytes
live_name creationdate = codes "creationdate"
live_name displayname = codes "displayname"
live_name getcontentlanguage = codes "getcontentlanguage"
live_name getcontentlength = codes "getcontentlength"
live_name getcontenttype = codes "getcontenttype"
live_name getetag = codes "getetag"
live_name getlastmodified = codes "getlastmodified"
live_name lockdiscovery = codes "lockdiscovery"
live_name resourcetype = codes "resourcetype"
live_name source = codes "source"
live_name supportedlock = codes "supportedlock"
live_name collection = codes "collection"

abbrev pub live_index : Live → ℕ
live_index creationdate = 0
live_index displayname = 1
live_index getcontentlanguage = 2
live_index getcontentlength = 3
live_index getcontenttype = 4
live_index getetag = 5
live_index getlastmodified = 6
live_index lockdiscovery = 7
live_index resourcetype = 8
live_index source = 9
live_index supportedlock = 10
live_index collection = 11

abbrev pub same_live : Live → Live → Bool
same_live a b = live_index a == live_index b

-- The states, with `declined` for zero.
pub data Element : Type 0 where
  multistatus response href prop propstat status responsedescription : Element
  live : Live → Element
  ignored declined : Element

abbrev pub dav : Bytes
dav = codes "DAV:"

abbrev pub search_elements : List (Bytes × Bytes × Element)
search_elements =
    (dav, codes "multistatus", multistatus)
    ∷ (dav, codes "response", response)
    ∷ (dav, codes "responsedescription", responsedescription)
    ∷ (dav, codes "href", href)
    ∷ (dav, codes "propstat", propstat)
    ∷ (dav, codes "prop", prop)
    ∷ (dav, codes "status", status)
    ∷ (dav, codes "creationdate", live creationdate)
    ∷ (dav, codes "displayname", live displayname)
    ∷ (dav, codes "getcontentlanguage", live getcontentlanguage)
    ∷ (dav, codes "getcontentlength", live getcontentlength)
    ∷ (dav, codes "getcontenttype", live getcontenttype)
    ∷ (dav, codes "getetag", live getetag)
    ∷ (dav, codes "getlastmodified", live getlastmodified)
    ∷ (dav, codes "lockdiscovery", live lockdiscovery)
    ∷ (dav, codes "resourcetype", live resourcetype)
    ∷ (dav, codes "source", live source)
    ∷ (dav, codes "supportedlock", live supportedlock)
    ∷ (dav, codes "collection", live collection)
    ∷ (dav, codes "lockentry", ignored)
    ∷ (dav, codes "lockscope", ignored)
    ∷ (dav, codes "locktype", ignored)
    ∷ (dav, codes "exclusive", ignored)
    ∷ (dav, codes "shared", ignored)
    ∷ (dav, codes "read", ignored)
    ∷ (dav, codes "write", ignored)
    ∷ []

-- `ne_xml_mapid` of neon on that table.
pub record Mapping : Type 0 where
  pub mapid : Bytes → Bytes → Element
  pub multistatus_lem : mapid dav (codes "multistatus") ≡ multistatus
  pub response_lem : mapid dav (codes "response") ≡ response
  pub href_lem : mapid dav (codes "href") ≡ href
  pub propstat_lem : mapid dav (codes "propstat") ≡ propstat
  pub prop_lem : mapid dav (codes "prop") ≡ prop
  pub status_lem : mapid dav (codes "status") ≡ status
  pub live_lem : (l : Live) → mapid dav (live_name l) ≡ live l

-- `dead_prop`; a new one has no value.
pub record DeadProp : Type 0 where
  pub name : Bytes
  pub nspace : Bytes
  pub value : Option Bytes

-- `search_res`, with the live properties as a function.
pub record SearchRes : Type 0 where
  pub href : Option Bytes
  pub lives : Live → Option Bytes
  pub root : List DeadProp
  pub curr : Option DeadProp
  pub dead_prop_num : ℕ

-- `search_ctx`; `failed` says that `err_code` is not NE_OK.
pub record SearchCtx : Type 0 where
  pub root : List SearchRes
  pub curr : Option SearchRes
  pub result_num : ℕ
  pub start_prop : Bool
  pub failed : Bool
  pub cdata : Bytes

-- What `ne_calloc` gives.
abbrev pub new_res : SearchRes
new_res = record { href = none; lives = λ l. none; root = []; curr = none; dead_prop_num = 0 }

abbrev pub set_xml_error : SearchCtx → SearchCtx
set_xml_error sctx = record sctx { failed = true }

-- The property that is started, over one that was not ended.
abbrev pub note : Bytes → Bytes → SearchRes → SearchRes
note nspace name res = record res {
  dead_prop_num = res.dead_prop_num + 1;
  curr = some (record { name = name; nspace = nspace; value = none });
}

abbrev pub with_curr : Option SearchRes → SearchCtx → SearchCtx
with_curr res sctx = record sctx { curr = res }

-- `SEARCH_CP_ELEM`.
abbrev pub copy_elem : (Bytes → SearchRes → SearchRes) → Option SearchRes → SearchCtx → SearchCtx
copy_elem set none sctx = set_xml_error sctx
copy_elem set (some res) sctx = record sctx { curr = some (set sctx.cdata res) }

abbrev pub set_href : Bytes → SearchRes → SearchRes
set_href v res = record res { href = some v }

abbrev pub set_live : Live → Bytes → SearchRes → SearchRes
set_live l v res = record res { lives = λ k. if same_live k l then some v else res.lives k }

module _ (searchall : Bool) where
  -- The default branch of `start_element`, which live properties take, too.
  abbrev pub start_default : Bytes → Bytes → Option SearchRes → SearchCtx → SearchCtx
  start_default nspace name none sctx = sctx
  start_default nspace name (some res) sctx =
      if searchall && sctx.start_prop
      then record sctx { curr = some (note nspace name res) }
      else sctx

  abbrev pub start_prop : Option SearchRes → SearchCtx → SearchCtx
  start_prop none sctx = set_xml_error sctx
  start_prop (some res) sctx = record sctx { start_prop = true }

  abbrev pub start_state : Element → Bytes → Bytes → SearchCtx → SearchCtx
  start_state ignored nspace name sctx = sctx
  start_state response nspace name sctx = record sctx {
    curr = some new_res;
    result_num = sctx.result_num + 1;
  }
  start_state href nspace name sctx = sctx
  start_state propstat nspace name sctx = sctx
  start_state prop nspace name sctx = start_prop sctx.curr sctx
  start_state multistatus nspace name sctx = start_default nspace name sctx.curr sctx
  start_state status nspace name sctx = start_default nspace name sctx.curr sctx
  start_state responsedescription nspace name sctx = start_default nspace name sctx.curr sctx
  start_state (live l) nspace name sctx = start_default nspace name sctx.curr sctx
  start_state declined nspace name sctx = start_default nspace name sctx.curr sctx

  -- The context after the call, and the state returned: the code NE_ERROR is that of `multistatus`.
  unfoldable pub start_element : Mapping → Bytes → Bytes → SearchCtx → SearchCtx × Element
  start_element m nspace name sctx =
      let state = m.mapid nspace name in
      if sctx.failed
      then (sctx, multistatus)
      else (start_state state nspace name (record sctx { cdata = [] }), state)

  unfoldable pub cdata_search : Bytes → SearchCtx → SearchCtx
  cdata_search buf sctx = record sctx { cdata = sctx.cdata ++ buf }

  -- The end of a property that is not a live one; `none` is a write through a NULL `res->curr`.
  abbrev pub end_dead : Bytes → SearchRes → Option DeadProp → Option SearchRes
  end_dead cdata res none = none
  end_dead cdata res (some p) =
      some (record res { root = (record p { value = some cdata }) ∷ res.root; curr = none })

  abbrev pub end_default : Option SearchRes → SearchCtx → Option SearchCtx
  end_default none sctx = some sctx
  end_default (some res) sctx =
      if searchall && sctx.start_prop
      then (end_dead sctx.cdata res res.curr >>= λ res. some (with_curr (some res) sctx))
      else some sctx

  abbrev pub link : SearchRes → Option Bytes → SearchCtx → SearchCtx
  link res none sctx = set_xml_error sctx
  link res (some uri) sctx = record sctx { root = res ∷ sctx.root; curr = none }

  abbrev pub end_response : Option SearchRes → SearchCtx → SearchCtx
  end_response none sctx = set_xml_error sctx
  end_response (some res) sctx = link res res.href sctx

  abbrev pub end_prop : Option SearchRes → SearchCtx → SearchCtx
  end_prop none sctx = set_xml_error sctx
  end_prop (some res) sctx = record sctx { start_prop = false }

  abbrev pub end_state : Element → SearchCtx → Option SearchCtx
  end_state ignored sctx = some sctx
  end_state response sctx = some (end_response sctx.curr sctx)
  end_state href sctx = some (copy_elem set_href sctx.curr sctx)
  end_state (live l) sctx = some (copy_elem (set_live l) sctx.curr sctx)
  end_state propstat sctx = some sctx
  end_state prop sctx = some (end_prop sctx.curr sctx)
  end_state multistatus sctx = end_default sctx.curr sctx
  end_state status sctx = end_default sctx.curr sctx
  end_state responsedescription sctx = end_default sctx.curr sctx
  end_state declined sctx = end_default sctx.curr sctx

  unfoldable pub end_element : Element → SearchCtx → Option SearchCtx
  end_element state sctx = if sctx.failed then some sctx else end_state state sctx

-- What the parser meets.
pub data Event : Type 0 where
  start : Bytes → Bytes → Event
  text : Bytes → Event
  end : Event

-- The context of the handlers with what neon keeps: the states of the elements that are open, and how
-- deep it is in an element that was declined, of which it calls no handler.
pub record Parser : Type 0 where
  pub sctx : SearchCtx
  pub open_states : List Element
  pub skipped : ℕ

abbrev pub is_declined : Element → Bool
is_declined declined = true
is_declined _ = false

module _ (searchall : Bool) (m : Mapping) where
  -- The start of an element, with what `start_element` returns.
  abbrev pub entered : Parser → SearchCtx × Element → Parser
  entered p (sctx, state) =
      if is_declined state
      then record p { sctx = sctx; skipped = 1 }
      else record p { sctx = sctx; open_states = state ∷ p.open_states }

  abbrev pub read_text : Bytes → List Element → Parser → Parser
  read_text buf [] p = p
  read_text buf (state ∷ states) p = record p { sctx = cdata_search searchall buf p.sctx }

  abbrev pub left_element : List Element → Parser → Option Parser
  left_element [] p = some p
  left_element (state ∷ states) p = end_element searchall state p.sctx >>= λ sctx.
      some (record p { sctx = sctx; open_states = states })

  abbrev pub handle : Event → ℕ → Parser → Option Parser
  handle (start nspace name) zero p =
      some (entered p (start_element searchall m nspace name p.sctx))
  handle (text buf) zero p = some (read_text buf p.open_states p)
  handle end zero p = left_element p.open_states p
  handle (start nspace name) (suc k) p = some (record p { skipped = suc (suc k) })
  handle (text buf) (suc k) p = some p
  handle end (suc k) p = some (record p { skipped = k })

  unfoldable pub parse_all : List Event → Parser → Option Parser
  unfolding start_element cdata_search end_element
  parse_all [] p = some p
  parse_all (e ∷ events) p = handle e p.skipped p >>= parse_all events

  unfoldable pub handle_all : List Event → SearchCtx → Option SearchCtx
  unfolding parse_all
  handle_all events sctx =
      parse_all events (record { sctx = sctx; open_states = []; skipped = 0 }) >>= λ p. some p.sctx

-- What `run_search` starts with.
abbrev pub new_ctx : SearchCtx
new_ctx = record {
  root = [];
  curr = none;
  result_num = 0;
  start_prop = false;
  failed = false;
  cdata = [];
}

-- What is shown of a result: its address, the texts that `atol` and `ne_httpdate_parse` read the size
-- and the time from, and up to ten bytes of the type.
pub record Row : Type 0 where
  pub href : Option Bytes
  pub getcontentlength : Option Bytes
  pub getlastmodified : Option Bytes
  pub getcontenttype : Bytes

abbrev pub cut_type : Option Bytes → Bytes
cut_type none = []
cut_type (some t) = take 10 t

abbrev pub row_of : SearchRes → Row
row_of res = record {
  href = res.href;
  getcontentlength = res.lives getcontentlength;
  getlastmodified = res.lives getlastmodified;
  getcontenttype = cut_type (res.lives getcontenttype);
}

-- A line of `display_results`: the head of a page, a result, a property of it, and the question.
pub data Line : Type 0 where
  found : ℕ → ℕ → ℕ → Line
  result : ℕ → Row → Line
  dead : DeadProp → Line
  more : Line

abbrev pub dead_lines : Bool → List DeadProp → List Line
dead_lines searchall [] = []
dead_lines searchall (p ∷ ps) = if searchall then dead p ∷ dead_lines searchall ps else []

-- The head of a page, from the first result of it on.
abbrev pub head_lines : ℕ → ℕ → List Line
head_lines result_num i =
    if i % 15 == 1
    then found result_num i (if ltb result_num (i + 9) then result_num else i + 9) ∷ []
    else []

-- The answers to the question: `true` for `q` and for the end of the input.
abbrev pub quits : List Bool → Bool × List Bool
quits [] = (true, [])
quits (q ∷ answers) = (q, answers)

-- The loop, from the result `i` on.
unfoldable pub display_from : Bool → ℕ → ℕ → List SearchRes → List Bool → List Line
display_from searchall result_num i [] answers = []
display_from searchall result_num i (res ∷ rest) answers =
    let shown =
      head_lines result_num i ++ (result i (row_of res) ∷ dead_lines searchall res.root) in
    let (quit, left) = quits answers in
    let on = display_from searchall result_num (i + 1) rest answers in
    let on_asked = display_from searchall result_num (i + 1) rest left in
    if i % 15 == 0 then shown ++ (more ∷ (if quit then [] else on_asked)) else shown ++ on

unfoldable pub display_results : Bool → SearchCtx → List Bool → List Line
unfolding display_from
display_results searchall sctx answers =
    if sctx.failed then [] else display_from searchall sctx.result_num 1 sctx.root answers
