-- ===== src/Versioning.antt =====
-- The versioning commands of src/version.c: the simple requests, `label`, `is_vcr`, and `history` with
-- the handlers of the report that neon's XML parser calls on the document of the server.
pub mod Requests
pub mod History
mod Tests
use cadaver.Common.{
  ◌>>=◌, ℕ, ◌+◌, ◌/◌, ◌≡◌, Bool, true, false, not, ◌&&◌, ◌||◌, List, [], ◌∷◌, ◌++◌, Option, none,
  some, ◌==◌, if◌then◌else◌, map, zero, suc,
}
use cadaver.Common.Text.{Bytes, codes, strcaseeq}
use cadaver.Neon.{Neon}
use cadaver.Resolve.{Site, uri_resolve_native_coll}
use cadaver.SearchResponse.{Event}

-- A request with its body, where it has one.
pub record Request : Type 0 where
  pub method : Bytes
  pub uri_path : Bytes
  pub body : Option Bytes

-- What `ne_request_dispatch` returns, and the status code.
pub record Response : Type 0 where
  pub dispatched : Bool
  pub code : ℕ

pub data Said : Type 0 where
  succeeded failed invalid_action : Said

abbrev pub req_result : Response → Said
req_result r =
    if not r.dispatched then failed else if not (r.code / 100 == 2) then failed else succeeded

module _ (n : Neon) (site : Site) where
  -- What a command sends, and what it says of the response; the table of commands gives each of
  -- them a path.
  abbrev pub simple_request : Bytes → Bytes → Request
  simple_request native_path method = record {
    method = method;
    uri_path = uri_resolve_native_coll n site native_path;
    body = none;
  }

  unfoldable pub execute_version : Bytes → Request
  execute_version remote = simple_request remote (codes "VERSION-CONTROL")

  unfoldable pub execute_checkin : Bytes → Request
  execute_checkin remote = simple_request remote (codes "CHECKIN")

  unfoldable pub execute_checkout : Bytes → Request
  execute_checkout remote = simple_request remote (codes "CHECKOUT")

  unfoldable pub execute_uncheckout : Bytes → Request
  execute_uncheckout remote = simple_request remote (codes "UNCHECKOUT")

  abbrev pub is_action : Bytes → Bool
  is_action act =
      strcaseeq act (codes "add") || strcaseeq act (codes "remove") || strcaseeq act (codes "set")

  -- The action stands in the body as it was typed.
  abbrev pub label_body : Bytes → Bytes → Bytes
  label_body act value =
      codes "<?xml version=\"1.0\" encoding=\"utf-8\" ?>\n<D:label xmlns:D=\"DAV:\">\n"
      ++ (codes "<D:"
          ++ (act
              ++ (codes "><D:label-name>"
                  ++ (value
                      ++ (codes "</D:label-name></D:"
                          ++ (act ++ (codes ">" ++ codes "</D:label>\n")))))))

  -- A `none` is an invalid action, for which nothing is sent.
  unfoldable pub execute_label : Bytes → Bytes → Bytes → Option Request
  execute_label native_path act value =
      if not (is_action act)
      then none
      else some (record {
        method = codes "LABEL";
        uri_path = uri_resolve_native_coll n site native_path;
        body = some (label_body act value);
      })

  abbrev report_body : Bytes
  report_body =
      codes "<?xml version=\"1.0\" encoding=\"utf-8\" ?><D:version-tree xmlns:D=\"DAV:\"> <D:prop>"
      ++ (codes "  <D:version-name/>  <D:creator-displayname/>  <D:getcontentlength/>"
          ++ codes "  <D:getlastmodified/>  <D:successor-set/> </D:prop></D:version-tree>")

  -- The request of `execute_history`.
  unfoldable pub do_report : Bytes → Request
  do_report native_path = record {
    method = codes "REPORT";
    uri_path = uri_resolve_native_coll n site native_path;
    body = some report_body;
  }

-- `vcr_results` on the values of the two properties, and `is_vcr`; 1 is checked in and 2 checked
-- out.
abbrev pub vcr_results : Option Bytes → Option Bytes → ℕ → ℕ
vcr_results (some checkin) checkout isvcr = 1
vcr_results none (some checkout) isvcr = 2
vcr_results none none isvcr = isvcr

abbrev pub vcr_all : List (Option Bytes × Option Bytes) → ℕ → ℕ
vcr_all [] isvcr = isvcr
vcr_all ((checkin, checkout) ∷ sets) isvcr = vcr_all sets (vcr_results checkin checkout isvcr)

unfoldable pub is_vcr : Bool → List (Option Bytes × Option Bytes) → ℕ
is_vcr ok sets = if not ok then 0 else vcr_all sets 0

pub data LiveProp : Type 0 where
  version_name creator_displayname getcontentlength getlastmodified : LiveProp

abbrev pub prop_index : LiveProp → ℕ
prop_index version_name = 0
prop_index creator_displayname = 1
prop_index getcontentlength = 2
prop_index getlastmodified = 3

-- The states, with `declined` for zero.
pub data ReportElement : Type 0 where
  multistatus response href prop propstat status : ReportElement
  live : LiveProp → ReportElement
  ignored declined : ReportElement

pub record ReportRes : Type 0 where
  pub href : Option Bytes
  pub lives : LiveProp → Option Bytes

pub record ReportCtx : Type 0 where
  pub root : List ReportRes
  pub curr : Option ReportRes
  pub result_num : ℕ
  pub start_prop : Bool
  pub failed : Bool
  pub cdata : Bytes

abbrev pub new_report : ReportRes
new_report = record { href = none; lives = λ l. none }

abbrev pub set_report_error : ReportCtx → ReportCtx
set_report_error rctx = record rctx { failed = true }

abbrev pub report_prop : Bool → Option ReportRes → ReportCtx → ReportCtx
report_prop b none rctx = set_report_error rctx
report_prop b (some res) rctx = record rctx { start_prop = b }

abbrev pub report_start : ReportElement → ReportCtx → ReportCtx
report_start multistatus rctx = rctx
report_start response rctx = record rctx {
  curr = some new_report;
  result_num = rctx.result_num + 1;
}
report_start href rctx = rctx
report_start prop rctx = report_prop true rctx.curr rctx
report_start propstat rctx = rctx
report_start status rctx = rctx
report_start (live l) rctx = rctx
report_start ignored rctx = rctx
report_start declined rctx = rctx

-- `REPORT_CP_ELEM`.
abbrev pub report_copy : (Bytes → ReportRes → ReportRes) → Option ReportRes → ReportCtx → ReportCtx
report_copy set none rctx = set_report_error rctx
report_copy set (some res) rctx = record rctx { curr = some (set rctx.cdata res) }

abbrev pub report_href : Bytes → ReportRes → ReportRes
report_href v res = record res { href = some v }

abbrev pub report_live : LiveProp → Bytes → ReportRes → ReportRes
report_live l v res = record res {
  lives = λ k. if prop_index k == prop_index l then some v else res.lives k;
}

abbrev pub report_link : Option ReportRes → ReportCtx → ReportCtx
report_link none rctx = set_report_error rctx
report_link (some res) rctx = elim res.href [
  | none ↦ set_report_error rctx
  | some uri ↦ record rctx { root = res ∷ rctx.root; curr = none }
]

abbrev pub report_end : ReportElement → ReportCtx → ReportCtx
report_end multistatus rctx = rctx
report_end response rctx = report_link rctx.curr rctx
report_end href rctx = report_copy report_href rctx.curr rctx
report_end prop rctx = report_prop false rctx.curr rctx
report_end propstat rctx = rctx
report_end status rctx = rctx
report_end (live l) rctx = report_copy (report_live l) rctx.curr rctx
report_end ignored rctx = rctx
report_end declined rctx = rctx

-- The table that `start_element` has names looked up in.
abbrev pub report_elements : List (Bytes × Bytes × ReportElement)
report_elements =
    (codes "DAV:", codes "multistatus", multistatus)
    ∷ (codes "DAV:", codes "response", response)
    ∷ (codes "DAV:", codes "href", href)
    ∷ (codes "DAV:", codes "propstat", propstat)
    ∷ (codes "DAV:", codes "prop", prop)
    ∷ (codes "DAV:", codes "status", status)
    ∷ (codes "DAV:", codes "version-name", live version_name)
    ∷ (codes "DAV:", codes "creator-displayname", live creator_displayname)
    ∷ (codes "DAV:", codes "getcontentlength", live getcontentlength)
    ∷ (codes "DAV:", codes "getlastmodified", live getlastmodified)
    ∷ []

abbrev pub report_name : LiveProp → Bytes
report_name version_name = codes "version-name"
report_name creator_displayname = codes "creator-displayname"
report_name getcontentlength = codes "getcontentlength"
report_name getlastmodified = codes "getlastmodified"

-- `ne_xml_mapid` of neon on that table.
pub record ReportMapping : Type 0 where
  pub mapid : Bytes → Bytes → ReportElement
  pub multistatus_lem : mapid (codes "DAV:") (codes "multistatus") ≡ multistatus
  pub response_lem : mapid (codes "DAV:") (codes "response") ≡ response
  pub href_lem : mapid (codes "DAV:") (codes "href") ≡ href
  pub propstat_lem : mapid (codes "DAV:") (codes "propstat") ≡ propstat
  pub prop_lem : mapid (codes "DAV:") (codes "prop") ≡ prop
  pub status_lem : mapid (codes "DAV:") (codes "status") ≡ status
  pub live_lem : (l : LiveProp) → mapid (codes "DAV:") (report_name l) ≡ live l

-- The context with what neon keeps: the states of the elements that are open, and how deep it is in
-- an element that was declined, of which it calls no handler.
pub record ReportParser : Type 0 where
  pub rctx : ReportCtx
  pub open_states : List ReportElement
  pub skipped : ℕ

abbrev pub is_declined : ReportElement → Bool
is_declined declined = true
is_declined _ = false

-- After an error, nothing changes but the text that is collected.
abbrev pub report_end_element : ReportElement → ReportCtx → ReportCtx
report_end_element state rctx = if rctx.failed then rctx else report_end state rctx

abbrev pub cdata_report : Bytes → ReportCtx → ReportCtx
cdata_report buf rctx = record rctx { cdata = rctx.cdata ++ buf }

module _ (m : ReportMapping) where
  -- The context after the call, and the state returned: the code NE_ERROR is that of `multistatus`.
  abbrev pub report_start_element : Bytes → Bytes → ReportCtx → ReportCtx × ReportElement
  report_start_element nspace name rctx =
      let state = m.mapid nspace name in
      if rctx.failed
      then (rctx, multistatus)
      else (report_start state (record rctx { cdata = [] }), state)

  abbrev pub entered : ReportParser → ReportCtx × ReportElement → ReportParser
  entered p (rctx, state) =
      if is_declined state
      then record p { rctx = rctx; skipped = 1 }
      else record p { rctx = rctx; open_states = state ∷ p.open_states }

  abbrev pub read_text : Bytes → List ReportElement → ReportParser → ReportParser
  read_text buf [] p = p
  read_text buf (state ∷ states) p = record p { rctx = cdata_report buf p.rctx }

  abbrev pub left_element : List ReportElement → ReportParser → ReportParser
  left_element [] p = p
  left_element (state ∷ states) p = record p {
    rctx = report_end_element state p.rctx;
    open_states = states;
  }

  abbrev pub report_step : Event → ℕ → ReportParser → ReportParser
  report_step (Event.start nspace name) zero p = entered p (report_start_element nspace name p.rctx)
  report_step (Event.text buf) zero p = read_text buf p.open_states p
  report_step Event.end zero p = left_element p.open_states p
  report_step (Event.start nspace name) (suc k) p = record p { skipped = suc (suc k) }
  report_step (Event.text buf) (suc k) p = p
  report_step Event.end (suc k) p = record p { skipped = k }

  unfoldable pub report_all : List Event → ReportParser → ReportParser
  report_all [] p = p
  report_all (e ∷ events) p = report_all events (report_step e p.skipped p)

abbrev pub new_report_ctx : ReportCtx
new_report_ctx = record {
  root = [];
  curr = none;
  result_num = 0;
  start_prop = false;
  failed = false;
  cdata = [];
}

abbrev pub new_parser : ReportParser
new_parser = record { rctx = new_report_ctx; open_states = []; skipped = 0 }

-- What is shown of a version: its address, the texts that `atol` and `ne_httpdate_parse` read the size
-- and the time from, and its name.
pub record VersionRow : Type 0 where
  pub href : Option Bytes
  pub getcontentlength : Option Bytes
  pub getlastmodified : Option Bytes
  pub version_name : Option Bytes

abbrev pub row_of : ReportRes → VersionRow
row_of res = record {
  href = res.href;
  getcontentlength = res.lives getcontentlength;
  getlastmodified = res.lives getlastmodified;
  version_name = res.lives version_name;
}

-- The lines of `display_report_results`: the number of versions, then each of them.
unfoldable pub display_report_results : ReportCtx → Option (ℕ × List VersionRow)
display_report_results rctx =
    if rctx.failed then none else some (rctx.result_num, map row_of rctx.root)

-- What comes back for the report: what `ne_request_dispatch` returns, 0 for NE_OK, the status code,
-- which is 0 where no response came, and what the parser meets in the body.
pub record Reported : Type 0 where
  pub ret : ℕ
  pub code : ℕ
  pub events : List Event

-- The body is parsed for a status of 2xx only.
abbrev pub parsed_report : ReportMapping → Reported → ReportCtx
unfolding report_all
parsed_report m r =
    if r.code / 100 == 2 then (report_all m r.events new_parser).rctx else new_report_ctx

-- What `do_report` returns.
abbrev pub report_ret : Reported → ℕ
report_ret r = if not (r.code / 100 == 2) then r.code else r.ret

-- What the user sees: a failure, or what `display_report_results` shows.
pub data HistoryShown : Type 0 where
  report_failed : HistoryShown
  displayed : Option (ℕ × List VersionRow) → HistoryShown

-- `answer` is the server.
unfoldable pub execute_history :
    ReportMapping → Neon → Site → (Request → Reported) → Bytes → HistoryShown
unfolding parsed_report do_report display_report_results
execute_history m n site answer native_path =
    let r = answer (do_report n site native_path) in
    if not (report_ret r == 0)
    then report_failed
    else displayed (display_report_results (parsed_report m r))
