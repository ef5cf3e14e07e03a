-- ===== src/SearchResponse/Handled.antt =====
-- The results that the handlers build from a response of the server.
use cadaver.Common.{
  ◌>>=◌, ℕ, ◌+◌, ◌≡◌, ◌∙◌, refl, ap, Bool, true, false, ◌&&◌, List, [], ◌∷◌, none, some, arith,
  if◌then◌else◌, All, length,
}
use cadaver.Common.Text.{Bytes, codes}
use cadaver.SearchResponse.{
  Element, dav, Mapping, SearchRes, SearchCtx, new_res, new_ctx, note, set_href, Event, parse_all,
  handle_all, link,
}
use cadaver.SearchResponse.Documents.{
  Property, Propstat, Item, texts, propstats_events, items_events, document_events, joined,
  with_props, with_propstats, described, stacked, IsUnknown, IsReport,
}
use cadaver.SearchResponse.Dead.{length-stacked, described-IsKept, IsBare, stacked-IsBare}
use Element.{multistatus, response, href, prop, propstat, status}
use Event.{start, end}
use cadaver.SearchResponse.Parts.{ctx, within, texts_lem, start_lem, props_lem}

and_false : (b : Bool) → (b && false) ≡ false
and_false true = refl
and_false false = refl

module _ (searchall : Bool) (m : Mapping) where
  abbrev in_response : List Element
  in_response = response ∷ multistatus ∷ []

  -- The status, after the properties; its text is read and dropped.
  status_lem :
      (ts : List Bytes) (rest : List Event) (root : List SearchRes) (res : SearchRes) (num : ℕ)
      (cd : Bytes)
      → parse_all searchall m (end ∷ start dav (codes "status") ∷ texts ts (end ∷ end ∷ rest)) (
          within searchall m
            (prop ∷ propstat ∷ in_response)
            (ctx searchall m root (some res) num true cd))
        ≡ parse_all searchall m rest
            (within searchall m in_response (ctx searchall m root (some res) num false (joined ts)))
  unfolding parse_all
  status_lem ts rest root res num cd =
      ended
      ∙ start_lem searchall m dav (codes "status") status (texts ts (end ∷ end ∷ rest))
          (propstat ∷ in_response) root (some res) num false cd m.status_lem refl
      ∙ ap
          (λ c.
            parse_all searchall m (texts ts (end ∷ end ∷ rest))
              (within searchall m (status ∷ propstat ∷ in_response) c))
          unnoted
      ∙ texts_lem searchall m ts (end ∷ end ∷ rest) status (propstat ∷ in_response)
          (ctx searchall m root (some res) num false [])
      ∙ closed
    where
      ended :
          parse_all searchall m (end ∷ start dav (codes "status") ∷ texts ts (end ∷ end ∷ rest)) (
            within searchall m
              (prop ∷ propstat ∷ in_response)
              (ctx searchall m root (some res) num true cd))
          ≡ parse_all searchall m (start dav (codes "status") ∷ texts ts (end ∷ end ∷ rest)) (
              within searchall m
                (propstat ∷ in_response)
                (ctx searchall m root (some res) num false cd))
      ended = refl

      unnoted :
          (if searchall && false
            then ctx searchall m root (some (note dav (codes "status") res)) num false []
            else ctx searchall m root (some res) num false [])
          ≡ ctx searchall m root (some res) num false []
      unnoted = rw (and_false searchall) refl

      closed :
          parse_all searchall m (end ∷ end ∷ rest) (
            within searchall m
              (status ∷ propstat ∷ in_response)
              (ctx searchall m root (some res) num false (joined ts)))
          ≡ parse_all searchall m rest (
              within searchall m in_response
                (ctx searchall m root (some res) num false (joined ts)))
      closed = rw (and_false searchall) refl

  propstats_lem :
      (pss : List Propstat) (rest : List Event) (root : List SearchRes) (res : SearchRes) (num : ℕ)
      (cd : Bytes)
      → All
          (λ (ps : Propstat).
            All (λ (p : List Bytes × Property). IsUnknown searchall m p.1) ps.props)
          pss
      → (cd' : Bytes) × (parse_all searchall m
            (propstats_events pss rest)
            (within searchall m in_response (ctx searchall m root (some res) num false cd))
          ≡ parse_all searchall m rest (
              within searchall m in_response
                (ctx searchall m root (some (with_propstats searchall pss res)) num false cd')))
  propstats_lem [] rest root res num cd h = (cd, refl)
  propstats_lem (ps ∷ pss) rest root res num cd h =
      let after = propstats_events pss rest in
      let (cd', e) =
        props_lem searchall m ps.props h.0
          (end ∷ start dav (codes "status") ∷ texts ps.status (end ∷ end ∷ after)) prop
          (propstat ∷ in_response) root res num [] in
      let res' = with_props searchall ps.props res in
      let (cd'', f) = propstats_lem pss rest root res' num (joined ps.status) h.1 in
      (
        cd'',
        start_lem searchall m dav (codes "propstat") propstat _ in_response root (some res) num
              false cd m.propstat_lem refl
            ∙ start_lem searchall m dav (codes "prop") prop _ (propstat ∷ in_response) root
                (some res) num false [] m.prop_lem refl
            ∙ e
            ∙ status_lem ps.status after root res' num cd'
            ∙ f,
      )

  linked :
      (i : Item) (root : List SearchRes) (num : ℕ) (cd : Bytes) (rest : List Event)
      → parse_all searchall m (end ∷ rest) (
          within searchall m in_response
            (ctx searchall m root (some (described searchall i)) num false cd))
        ≡ parse_all searchall m rest (
            within searchall m
              (multistatus ∷ [])
              (ctx searchall m (described searchall i ∷ root) none num false cd))
  unfolding parse_all
  linked i root num cd rest =
      ap
        (λ o. parse_all searchall m rest (
          within searchall m (multistatus ∷ []) (
            link searchall (described searchall i) o
              (ctx searchall m root (some (described searchall i)) num false cd))))
        (described-IsKept searchall i).0

  items_lem :
      (items : List Item) (root : List SearchRes) (num : ℕ) (cd : Bytes)
      → All (IsReport searchall m) items
      → (cd' : Bytes) × (parse_all searchall m
            (items_events items (end ∷ []))
            (within searchall m (multistatus ∷ []) (ctx searchall m root none num false cd))
          ≡ some (
              within searchall m [] (
                ctx searchall m
                  (stacked searchall items root)
                  none
                  (num + length items)
                  false
                  cd')))
  unfolding parse_all
  items_lem [] root num cd h = (
    cd,
    ap (λ n. some (within searchall m [] (ctx searchall m root none n false cd))) (omega arith),
  )
  items_lem (i ∷ items) root num cd h =
      let next = items_events items (end ∷ []) in
      let propertied = texts i.href (end ∷ propstats_events i.propstats (end ∷ next)) in
      let addressed = start dav (codes "href") ∷ propertied in
      let head = set_href (joined i.href) new_res in
      let (cd', e) =
        propstats_lem i.propstats (end ∷ next) root head (num + 1) (joined i.href) h.0 in
      let (cd'', f) = items_lem items (described searchall i ∷ root) (num + 1) cd' h.1 in
      (
        cd'',
        start_lem searchall m dav (codes "response") response addressed (multistatus ∷ []) root none
              num false cd m.response_lem refl
            ∙ start_lem searchall m dav (codes "href") href propertied in_response root
                (some new_res) (num + 1) false [] m.href_lem refl
            ∙ texts_lem searchall m i.href (end ∷ propstats_events i.propstats (end ∷ next)) href
                in_response (ctx searchall m root (some new_res) (num + 1) false [])
            ∙ e
            ∙ linked i root (num + 1) cd' next
            ∙ f
            ∙ ap
                (λ n. some (
                  within searchall m [] (
                    ctx searchall m (stacked searchall items (described searchall i ∷ root)) none n
                      false cd'')))
                (omega arith),
      )

  pub handle_all-document_events :
      (items : List Item)
      → All (IsReport searchall m) items
      → (cd : Bytes) × (handle_all searchall m (document_events items) new_ctx
          ≡ some (record new_ctx {
            root = stacked searchall items [];
            result_num = length items;
            cdata = cd;
          }))
  unfolding handle_all
  handle_all-document_events items h =
      let (cd, e) = items_lem items [] 0 [] h in
      (
        cd,
        ap (λ o. o >>= λ p. some p.sctx)
              (start_lem searchall m dav (codes "multistatus") multistatus
                  (items_events items (end ∷ [])) [] [] none 0 false [] m.multistatus_lem refl
                ∙ e)
            ∙ ap (λ n. some (ctx searchall m (stacked searchall items []) none n false cd))
                (omega arith),
      )

  -- A response that consists of resources with an address and then their properties by status gives
  -- as many results as it has resources, and none of them has a dead property, although the option
  -- `searchall` asks for them: `start_element` declines the element of a property that is not in the
  -- table, so that neon does not hand over its text and its end.
  pub handle_all-IsBare :
      (items : List Item)
      → All (IsReport searchall m) items
      → (c : SearchCtx) × (handle_all searchall m (document_events items) new_ctx ≡ some c)
        × All (IsBare searchall) c.root
        × (length c.root ≡ length items)
  handle_all-IsBare items h =
      let (cd, e) = handle_all-document_events items h in
      (_, e, stacked-IsBare searchall items [] tt, omega (arith, length-stacked searchall items []))
