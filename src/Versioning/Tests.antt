-- ===== src/Versioning/Tests.antt =====
-- Requests and reports, and instances of the theorems on them.
use cadaver.Common.{◌≡◌, refl, arith, true, false, List, [], ◌∷◌, none, some, ◌&&◌, if◌then◌else◌}
use cadaver.Common.Text.{Bytes, codes, streq, strcaseeq, tolower}
use cadaver.Neon.{Neon}
use cadaver.Neon.Samples.{plain, site}
use cadaver.Resolve.{uri_resolve_native_coll}
use cadaver.Versioning.{
  Request, Reported, displayed, report_failed, execute_history, execute_version, execute_checkin,
  execute_checkout, execute_uncheckout, execute_label, do_report, is_action, is_vcr, LiveProp,
  ReportElement, ReportMapping, report_elements, report_name,
}
use cadaver.Versioning.History.{Version, Sent, report_events, execute_history-unreached}
use cadaver.SearchResponse.Documents.{Content}
use cadaver.Versioning.Requests.{ForCollection, Labels, versioning-ForCollection}

-- A resolution that takes a reference as it is.
abbrev direct : Neon
direct = record plain { uri_resolve = λ base p. p }

-- A file gets a slash, too.
checkin_file : (execute_checkin plain site (codes "a.txt")).uri_path ≡ codes "/d/a.txt/"
unfolding execute_checkin uri_resolve_native_coll
checkin_file = refl

label_invalid : execute_label plain site (codes "a") (codes "drop") (codes "v1") ≡ none
unfolding execute_label strcaseeq tolower
label_invalid = refl

-- The last resource that has one of the two properties decides.
vcr_states :
    (is_vcr true ((some [], none) ∷ []) ≡ 1)
    × (is_vcr true ((none, some []) ∷ []) ≡ 2)
    × (is_vcr false ((some [], none) ∷ []) ≡ 0)
unfolding is_vcr
vcr_states = (refl, refl, refl)

versioning-ForCollection_example :
    ForCollection (execute_version direct site (codes "a"))
    × ForCollection (execute_checkin direct site (codes "a"))
    × ForCollection (execute_checkout direct site (codes "a"))
    × ForCollection (execute_uncheckout direct site (codes "a"))
    × ForCollection (do_report direct site (codes "a"))
    × Labels
        (is_action direct site (codes "ADD"))
        (execute_label direct site (codes "a") (codes "ADD") (codes "v1"))
versioning-ForCollection_example =
    versioning-ForCollection direct site (codes "a") (codes "ADD") (codes "v1") (λ p e. e)

-- The first row of the names, and zero where there is none.
abbrev find_element : List (Bytes × Bytes × ReportElement) → Bytes → Bytes → ReportElement
find_element [] nspace name = ReportElement.declined
find_element ((n, m, e) ∷ rows) nspace name =
    if streq nspace n && streq name m then e else find_element rows nspace name

find_live :
    (l : LiveProp)
    → find_element report_elements (codes "DAV:") (report_name l) ≡ ReportElement.live l
unfolding streq
find_live LiveProp.version_name = refl
find_live LiveProp.creator_displayname = refl
find_live LiveProp.getcontentlength = refl
find_live LiveProp.getlastmodified = refl

unfoldable mapping : ReportMapping
unfolding streq
mapping = record {
  mapid = find_element report_elements;
  multistatus_lem = refl;
  response_lem = refl;
  href_lem = refl;
  propstat_lem = refl;
  prop_lem = refl;
  status_lem = refl;
  live_lem = find_live;
}

-- Two versions, one with an element that is not in the table.
abbrev versions : List Version
versions =
    record {
      href = codes "/h/" ∷ codes "1" ∷ [];
      propstats =
          record {
            props =
                Sent.known (codes " " ∷ []) LiveProp.version_name (codes "V1" ∷ [])
                ∷ Sent.unknown [] (codes "DAV:") (codes "successor-set") (
                    Content.element (codes "DAV:") (codes "href")
                      (Content.words (codes "/h/2") Content.nothing) Content.nothing)
                ∷ [];
            status = [];
          }
          ∷ [];
    }
    ∷ record {
      href = codes "/h/2" ∷ [];
      propstats = record { props = []; status = codes "HTTP/1.1 200 OK" ∷ [] } ∷ [];
    }
    ∷ []

abbrev history_server : Request → Reported
history_server request = record { ret = 0; code = 207; events = report_events versions }

-- NE_CONNECT of neon.
abbrev no_server : Request → Reported
no_server request = record { ret = 5; code = 0; events = [] }

execute_history-unreached_example :
    execute_history mapping direct site no_server (codes "a") ≡ displayed (some (0, []))
execute_history-unreached_example =
    execute_history-unreached mapping direct site no_server (codes "a") (λ e. omega (arith, e)) refl

not_found :
    execute_history mapping direct site
      (λ request. record { ret = 0; code = 404; events = [] })
      (codes "a")
    ≡ report_failed
unfolding execute_history
not_found = refl
