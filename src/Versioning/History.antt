-- ===== src/Versioning/History.antt =====
-- The versions that the handlers of the report build from a response of the server.
use cadaver.Common.{
  ◌≡◌, ◌≢◌, ◌∙◌, ℕ, suc, ◌+◌, refl, sym, ap, Bool, true, false, List, [], ◌∷◌, ◌++◌, append-nil,
  append_assoc, Option, none, some, arith, length, All,
}
use cadaver.Common.Text.{Bytes, codes}
use cadaver.Neon.{Neon}
use cadaver.Resolve.{Site}
use cadaver.SearchResponse.{Event}
use cadaver.SearchResponse.Documents.{Content, texts, content_events, joined}
use cadaver.Versioning.{
  Request, Reported, displayed, execute_history, parsed_report, do_report, display_report_results,
  LiveProp, report_name, ReportElement, ReportRes, ReportCtx, ReportParser, ReportMapping,
  new_report, new_report_ctx, new_parser, is_declined, entered, report_start, report_href,
  report_live, set_report_error, report_all,
}
use Event.{start, end}
use ReportElement.{multistatus, response, href, prop, propstat, status, live, declined}

abbrev dav : Bytes
dav = codes "DAV:"

-- A property as the server sends it: the space before it, its name, and its text in pieces, or an
-- element that is not in the table, whatever it holds.
pub data Sent : Type 0 where
  known : List Bytes → LiveProp → List Bytes → Sent
  unknown : List Bytes → Bytes → Bytes → Content → Sent

-- Properties of one status.
pub record Propstat : Type 0 where
  pub props : List Sent
  pub status : List Bytes

pub record Version : Type 0 where
  pub href : List Bytes
  pub propstats : List Propstat

-- The document, part by part, with what follows.
abbrev pub sent_events : List Sent → List Event → List Event
sent_events [] rest = rest
sent_events (known gap l ts ∷ props) rest =
    texts gap (start dav (report_name l) ∷ texts ts (end ∷ sent_events props rest))
sent_events (unknown gap nspace name c ∷ props) rest =
    texts gap (start nspace name ∷ content_events c (end ∷ sent_events props rest))

abbrev pub propstats_events : List Propstat → List Event → List Event
propstats_events [] rest = rest
propstats_events (ps ∷ pss) rest =
    start dav (codes "propstat")
    ∷ start dav (codes "prop")
    ∷ sent_events ps.props
        (end ∷ start dav (codes "status") ∷ texts ps.status (end ∷ end ∷ propstats_events pss rest))

abbrev pub version_events : List Version → List Event → List Event
version_events [] rest = rest
version_events (v ∷ versions) rest =
    start dav (codes "response")
    ∷ start dav (codes "href")
    ∷ texts v.href (end ∷ propstats_events v.propstats (end ∷ version_events versions rest))

abbrev pub report_events : List Version → List Event
report_events versions = start dav (codes "multistatus") ∷ version_events versions (end ∷ [])

-- The results that the response describes: a property has the text of its last element.
abbrev pub with_sent : List Sent → ReportRes → ReportRes
with_sent [] res = res
with_sent (known gap l ts ∷ props) res = with_sent props (report_live l (joined ts) res)
with_sent (unknown gap nspace name c ∷ props) res = with_sent props res

abbrev pub with_propstats : List Propstat → ReportRes → ReportRes
with_propstats [] res = res
with_propstats (ps ∷ pss) res = with_propstats pss (with_sent ps.props res)

abbrev pub described : Version → ReportRes
described v = with_propstats v.propstats (report_href (joined v.href) new_report)

abbrev pub stacked : List Version → List ReportRes → List ReportRes
stacked [] root = root
stacked (v ∷ versions) root = stacked versions (described v ∷ root)

abbrev ctx : List ReportRes → Option ReportRes → ℕ → Bool → Bytes → ReportCtx
ctx root curr num b cd = record {
  root = root;
  curr = curr;
  result_num = num;
  start_prop = b;
  failed = false;
  cdata = cd;
}

-- neon in the elements of these states, `k` deep in one that was declined.
abbrev skipping : ℕ → List ReportElement → ReportCtx → ReportParser
skipping k states c = record { rctx = c; open_states = states; skipped = k }

abbrev within : List ReportElement → ReportCtx → ReportParser
within states c = skipping 0 states c

-- The properties leave the address alone.
with_sent-href : (props : List Sent) (res : ReportRes) → (with_sent props res).href ≡ res.href
with_sent-href [] res = refl
with_sent-href (known gap l ts ∷ props) res = with_sent-href props (report_live l (joined ts) res)
with_sent-href (unknown gap nspace name c ∷ props) res = with_sent-href props res

with_propstats-href :
    (pss : List Propstat) (res : ReportRes) → (with_propstats pss res).href ≡ res.href
with_propstats-href [] res = refl
with_propstats-href (ps ∷ pss) res =
    with_propstats-href pss (with_sent ps.props res) ∙ with_sent-href ps.props res

module _ (m : ReportMapping) where
  -- The names that are not in the table are those that neon does not find there.
  abbrev pub IsUnknown : Sent → Type 0
  IsUnknown (known gap l ts) = Unit
  IsUnknown (unknown gap nspace name c) = m.mapid nspace name ≡ declined

  abbrev pub IsReport : Version → Type 0
  IsReport v = All (λ (ps : Propstat). All IsUnknown ps.props) v.propstats

  texts_lem :
      (ts : List Bytes) (rest : List Event) (e : ReportElement) (es : List ReportElement)
      (c : ReportCtx)
      → report_all m (texts ts rest) (within (e ∷ es) c)
        ≡ report_all m rest (within (e ∷ es) (record c { cdata = c.cdata ++ joined ts }))
  unfolding report_all
  texts_lem [] rest e es c =
      ap (λ cd. report_all m rest (within (e ∷ es) (record c { cdata = cd })))
        (sym (append-nil c.cdata))
  texts_lem (t ∷ ts) rest e es c =
      texts_lem ts rest e es (record c { cdata = c.cdata ++ t })
      ∙ ap (λ cd. report_all m rest (within (e ∷ es) (record c { cdata = cd })))
          (append_assoc c.cdata t (joined ts))

  -- The content of an element that was declined is not seen.
  skipped_lem :
      (k : ℕ) (es : List ReportElement) (rctx : ReportCtx) (c : Content) (rest : List Event)
      → report_all m (content_events c rest) (skipping (suc k) es rctx)
        ≡ report_all m rest (skipping (suc k) es rctx)
  unfolding report_all
  skipped_lem k es rctx Content.nothing rest = refl
  skipped_lem k es rctx (Content.words t more) rest = skipped_lem k es rctx more rest
  skipped_lem k es rctx (Content.element nspace name inner more) rest =
      skipped_lem (suc k) es rctx inner (end ∷ content_events more rest)
      ∙ skipped_lem k es rctx more rest

  declined_lem :
      (nspace name : Bytes) (c : Content) (rest : List Event) (es : List ReportElement)
      (root : List ReportRes) (curr : Option ReportRes) (num : ℕ) (b : Bool) (cd : Bytes)
      → m.mapid nspace name ≡ declined
      → report_all m
          (start nspace name ∷ content_events c (end ∷ rest))
          (within es (ctx root curr num b cd))
        ≡ report_all m rest (within es (ctx root curr num b []))
  unfolding report_all
  declined_lem nspace name c rest es root curr num b cd h =
      ap
        (λ e. report_all m (content_events c (end ∷ rest)) (
          entered m (within es (ctx root curr num b cd))
            (report_start e (ctx root curr num b []), e)))
        h
      ∙ skipped_lem 0 es (ctx root curr num b []) c (end ∷ rest)

  start_lem :
      (name : Bytes) (e : ReportElement) (rest : List Event) (es : List ReportElement)
      (root : List ReportRes) (curr : Option ReportRes) (num : ℕ) (b : Bool) (cd : Bytes)
      → m.mapid dav name ≡ e
      → is_declined e ≡ false
      → report_all m (start dav name ∷ rest) (within es (ctx root curr num b cd))
        ≡ report_all m rest (within (e ∷ es) (report_start e (ctx root curr num b [])))
  unfolding report_all
  start_lem name e rest es root curr num b cd h d = rw h (rw d refl)

  abbrev in_response : List ReportElement
  in_response = response ∷ multistatus ∷ []

  abbrev in_prop : List ReportElement
  in_prop = prop ∷ propstat ∷ in_response

  sent_lem :
      (props : List Sent) (rest : List Event) (root : List ReportRes) (res : ReportRes) (num : ℕ)
      (cd : Bytes)
      → All IsUnknown props
      → (cd' : Bytes) × (report_all m
            (sent_events props rest)
            (within in_prop (ctx root (some res) num true cd))
          ≡ report_all m rest (within in_prop (ctx root (some (with_sent props res)) num true cd')))
  unfolding report_all
  sent_lem [] rest root res num cd h = (cd, refl)
  sent_lem (known gap l ts ∷ props) rest root res num cd h =
      let next = sent_events props rest in
      let (cd', e) = sent_lem props rest root (report_live l (joined ts) res) num (joined ts) h.1 in
      (
        cd',
        texts_lem gap (start dav (report_name l) ∷ texts ts (end ∷ next)) prop
              (propstat ∷ in_response) (ctx root (some res) num true cd)
            ∙ start_lem (report_name l) (live l) (texts ts (end ∷ next)) in_prop root (some res) num
                true (cd ++ joined gap) (m.live_lem l) refl
            ∙ texts_lem ts (end ∷ next) (live l) in_prop (ctx root (some res) num true [])
            ∙ e,
      )
  sent_lem (unknown gap nspace name c ∷ props) rest root res num cd h =
      let next = sent_events props rest in
      let (cd', e) = sent_lem props rest root res num [] h.1 in
      (
        cd',
        texts_lem gap (start nspace name ∷ content_events c (end ∷ next)) prop
              (propstat ∷ in_response) (ctx root (some res) num true cd)
            ∙ declined_lem nspace name c next in_prop root (some res) num true (cd ++ joined gap)
                h.0
            ∙ e,
      )

  propstats_lem :
      (pss : List Propstat) (rest : List Event) (root : List ReportRes) (res : ReportRes) (num : ℕ)
      (cd : Bytes)
      → All (λ (ps : Propstat). All IsUnknown ps.props) pss
      → (cd' : Bytes) × (report_all m
            (propstats_events pss rest)
            (within in_response (ctx root (some res) num false cd))
          ≡ report_all m rest
              (within in_response (ctx root (some (with_propstats pss res)) num false cd')))
  unfolding report_all
  propstats_lem [] rest root res num cd h = (cd, refl)
  propstats_lem (ps ∷ pss) rest root res num cd h =
      let ended = end ∷ end ∷ propstats_events pss rest in
      let after = start dav (codes "status") ∷ texts ps.status ended in
      let props = sent_events ps.props (end ∷ after) in
      let res' = with_sent ps.props res in
      let (cd', e) = sent_lem ps.props (end ∷ after) root res num [] h.0 in
      let (cd'', f) = propstats_lem pss rest root res' num (joined ps.status) h.1 in
      (
        cd'',
        start_lem (codes "propstat") propstat (start dav (codes "prop") ∷ props) in_response root
              (some res) num false cd m.propstat_lem refl
            ∙ start_lem (codes "prop") prop props (propstat ∷ in_response) root (some res) num false
                [] m.prop_lem refl
            ∙ e
            ∙ start_lem (codes "status") status (texts ps.status ended) (propstat ∷ in_response)
                root (some res') num false cd' m.status_lem refl
            ∙ texts_lem ps.status ended status (propstat ∷ in_response)
                (ctx root (some res') num false [])
            ∙ f,
      )

  -- The end of a response whose address is `o`.
  abbrev linked : Version → List ReportRes → ℕ → Bytes → Option Bytes → ReportCtx
  linked v root num cd none = set_report_error (ctx root (some (described v)) num false cd)
  linked v root num cd (some uri) = ctx (described v ∷ root) none num false cd

  versions_lem :
      (versions : List Version) (root : List ReportRes) (num : ℕ) (cd : Bytes)
      → All IsReport versions
      → (cd' : Bytes) × (report_all m
            (version_events versions (end ∷ []))
            (within (multistatus ∷ []) (ctx root none num false cd))
          ≡ within [] (ctx (stacked versions root) none (num + length versions) false cd'))
  unfolding report_all
  versions_lem [] root num cd h = (cd, ap (λ n. within [] (ctx root none n false cd)) (omega arith))
  versions_lem (v ∷ versions) root num cd h =
      let next = version_events versions (end ∷ []) in
      let after = end ∷ propstats_events v.propstats (end ∷ next) in
      let head = report_href (joined v.href) new_report in
      let (cd', e) =
        propstats_lem v.propstats (end ∷ next) root head (num + 1) (joined v.href) h.0 in
      let (cd'', f) = versions_lem versions (described v ∷ root) (num + 1) cd' h.1 in
      (
        cd'',
        start_lem (codes "response") response (start dav (codes "href") ∷ texts v.href after)
              (multistatus ∷ []) root none num false cd m.response_lem refl
            ∙ start_lem (codes "href") href (texts v.href after) in_response root (some new_report)
                (num + 1) false [] m.href_lem refl
            ∙ texts_lem v.href after href in_response
                (ctx root (some new_report) (num + 1) false [])
            ∙ e
            ∙ ap
                (λ o. report_all m next (within (multistatus ∷ []) (linked v root (num + 1) cd' o)))
                (with_propstats-href v.propstats head)
            ∙ f
            ∙ ap (λ n. within [] (ctx (stacked versions (described v ∷ root)) none n false cd''))
                (omega arith),
      )

  -- The handlers build, from the document of any report, exactly the versions that it describes, the
  -- last one first, and count them.
  pub report_all-report_events :
      (versions : List Version)
      → All IsReport versions
      → (cd : Bytes) × (report_all m (report_events versions) new_parser
          ≡ within [] (record new_report_ctx {
            root = stacked versions [];
            result_num = length versions;
            cdata = cd;
          }))
  report_all-report_events versions h =
      let (cd, e) = versions_lem versions [] 0 [] h in
      (
        cd,
        start_lem (codes "multistatus") multistatus (version_events versions (end ∷ [])) [] [] none
              0 false [] m.multistatus_lem refl
            ∙ e
            ∙ ap (λ n. within [] (ctx (stacked versions []) none n false cd)) (omega arith),
      )

  -- Where the server cannot be reached, so that there is no status, `history` does not say so but
  -- shows a history without versions: the error of the request is overwritten by the status code 0.
  pub execute_history-unreached :
      (n : Neon) (site : Site) (answer : Request → Reported) (native_path : Bytes)
      → (answer (do_report n site native_path)).ret ≢ 0
      → (answer (do_report n site native_path)).code ≡ 0
      → execute_history m n site answer native_path ≡ displayed (some (0, []))
  unfolding execute_history parsed_report display_report_results
  execute_history-unreached n site answer native_path r c = rw c refl
