-- ===== src/SearchResponse/Parts.antt =====
-- What the handlers do with the parts of a response: texts, starts, and the properties of a list.
use cadaver.Common.{
  ℕ, suc, ◌≡◌, ◌∙◌, inl, inr, refl, sym, ap, Bool, true, false, ◌&&◌, List, [], ◌∷◌, ◌++◌,
  append-nil, append_assoc, Option, some, if◌then◌else◌, Bool-cases, All,
}
use cadaver.Common.Text.{Bytes}
use cadaver.SearchResponse.{
  Live, live_name, Element, dav, Mapping, SearchRes, SearchCtx, note, set_live, start_state, Event,
  Parser, is_declined, parse_all,
}
use cadaver.SearchResponse.Documents.{
  Property, Content, texts, content_events, property_events, props_events, joined, noted,
  with_property, with_props, IsUnknown,
}
use Element.{live, declined}
use Event.{start, end}
use Property.{simple, typed, unknown}

module _ (searchall : Bool) (m : Mapping) where
  abbrev pub ctx : List SearchRes → Option SearchRes → ℕ → Bool → Bytes → SearchCtx
  ctx root curr num b cd = record {
    root = root;
    curr = curr;
    result_num = num;
    start_prop = b;
    failed = false;
    cdata = cd;
  }

  -- neon in the elements of these states, none of which is declined.
  abbrev pub within : List Element → SearchCtx → Parser
  within states c = record { sctx = c; open_states = states; skipped = 0 }

  abbrev pub skipping : ℕ → List Element → SearchCtx → Parser
  skipping k states c = record { sctx = c; open_states = states; skipped = k }

  pub texts_lem :
      (ts : List Bytes) (rest : List Event) (e : Element) (es : List Element) (c : SearchCtx)
      → parse_all searchall m (texts ts rest) (within (e ∷ es) c)
        ≡ parse_all searchall m rest (within (e ∷ es) (record c { cdata = c.cdata ++ joined ts }))
  unfolding parse_all
  texts_lem [] rest e es c =
      ap (λ cd. parse_all searchall m rest (within (e ∷ es) (record c { cdata = cd })))
        (sym (append-nil c.cdata))
  texts_lem (t ∷ ts) rest e es c =
      texts_lem ts rest e es (record c { cdata = c.cdata ++ t })
      ∙ ap (λ cd. parse_all searchall m rest (within (e ∷ es) (record c { cdata = cd })))
          (append_assoc c.cdata t (joined ts))

  -- The content of an element that was declined is not seen.
  skipped_lem :
      (k : ℕ) (es : List Element) (sctx : SearchCtx) (c : Content) (rest : List Event)
      → parse_all searchall m (content_events c rest) (skipping (suc k) es sctx)
        ≡ parse_all searchall m rest (skipping (suc k) es sctx)
  unfolding parse_all
  skipped_lem k es sctx Content.nothing rest = refl
  skipped_lem k es sctx (Content.words t more) rest = skipped_lem k es sctx more rest
  skipped_lem k es sctx (Content.element nspace name inner more) rest =
      skipped_lem (suc k) es sctx inner (end ∷ content_events more rest)
      ∙ skipped_lem k es sctx more rest

  declined_lem :
      (nspace name : Bytes) (c : Content) (rest : List Event) (es : List Element)
      (root : List SearchRes) (curr : Option SearchRes) (num : ℕ) (b : Bool) (cd : Bytes)
      → m.mapid nspace name ≡ declined
      → parse_all searchall m
          (start nspace name ∷ content_events c (end ∷ rest))
          (within es (ctx root curr num b cd))
        ≡ parse_all searchall m rest
            (within es (start_state searchall declined nspace name (ctx root curr num b [])))
  unfolding parse_all
  declined_lem nspace name c rest es root curr num b cd h = rw h (
      skipped_lem 0 es (start_state searchall declined nspace name (ctx root curr num b [])) c
        (end ∷ rest)
      ∙ parse_end)
    where
      parse_end :
          parse_all searchall m
            (end ∷ rest)
            (skipping 1 es (start_state searchall declined nspace name (ctx root curr num b [])))
          ≡ parse_all searchall m rest
              (within es (start_state searchall declined nspace name (ctx root curr num b [])))
      parse_end = refl

  pub start_lem :
      (nspace name : Bytes) (e : Element) (rest : List Event) (es : List Element)
      (root : List SearchRes) (curr : Option SearchRes) (num : ℕ) (b : Bool) (cd : Bytes)
      → m.mapid nspace name ≡ e
      → is_declined e ≡ false
      → parse_all searchall m (start nspace name ∷ rest) (within es (ctx root curr num b cd))
        ≡ parse_all searchall m rest
            (within (e ∷ es) (start_state searchall e nspace name (ctx root curr num b [])))
  unfolding parse_all
  start_lem nspace name e rest es root curr num b cd h d = rw h (rw d refl)

  -- The start of a property, live or not.
  note_lem :
      (nspace name : Bytes) (res : SearchRes) (root : List SearchRes) (num : ℕ)
      → (if searchall && true
          then ctx root (some (note nspace name res)) num true []
          else ctx root (some res) num true [])
        ≡ ctx root (some (noted searchall nspace name res)) num true []
  note_lem nspace name res root num = elim (Bool-cases searchall) [
    | inl b ↦ rw b refl
    | inr b ↦ rw b refl
  ]

  -- The start of a property in the middle of a list of them.
  noted_lem :
      (nspace name : Bytes) (rest : List Event) (es : List Element) (root : List SearchRes)
      (res : SearchRes) (num : ℕ)
      → parse_all searchall m rest (
          within es (
            if searchall && true
            then ctx root (some (note nspace name res)) num true []
            else ctx root (some res) num true []))
        ≡ parse_all searchall m rest
            (within es (ctx root (some (noted searchall nspace name res)) num true []))
  noted_lem nspace name rest es root res num =
      ap (λ c. parse_all searchall m rest (within es c)) (note_lem nspace name res root num)

  -- What a part of the response does: the rest is handled with the new result, whatever was read.
  abbrev Does : (List Event → List Event) → (SearchRes → SearchRes) → Type 0
  Does events f =
      (rest : List Event) (e : Element) (es : List Element) (root : List SearchRes)
      (res : SearchRes) (num : ℕ) (cd : Bytes)
      → (cd' : Bytes) × (parse_all searchall m (events rest)
            (within (e ∷ es) (ctx root (some res) num true cd))
          ≡ parse_all searchall m rest (within (e ∷ es) (ctx root (some (f res)) num true cd')))

  live_start_lem :
      (l : Live) (rest : List Event) (es : List Element) (root : List SearchRes) (res : SearchRes)
      (num : ℕ) (cd : Bytes)
      → parse_all searchall m
          (start dav (live_name l) ∷ rest)
          (within es (ctx root (some res) num true cd))
        ≡ parse_all searchall m rest (
            within
              (live l ∷ es)
              (ctx root (some (noted searchall dav (live_name l) res)) num true []))
  live_start_lem l rest es root res num cd =
      start_lem dav (live_name l) (live l) rest es root (some res) num true cd (m.live_lem l) refl
      ∙ noted_lem dav (live_name l) rest (live l ∷ es) root res num

  live_end_lem :
      (l : Live) (rest : List Event) (es : List Element) (root : List SearchRes) (res : SearchRes)
      (num : ℕ) (cd : Bytes)
      → parse_all searchall m (end ∷ rest) (within (live l ∷ es) (ctx root (some res) num true cd))
        ≡ parse_all searchall m rest (within es (ctx root (some (set_live l cd res)) num true cd))
  unfolding parse_all
  live_end_lem l rest es root res num cd = refl

  simple_lem :
      (l : Live) (ts : List Bytes)
      → Does (property_events (simple l ts)) (with_property searchall (simple l ts))
  simple_lem l ts rest e es root res num cd = (
    joined ts,
    live_start_lem l (texts ts (end ∷ rest)) (e ∷ es) root res num cd
        ∙ texts_lem ts (end ∷ rest) (live l) (e ∷ es)
            (ctx root (some (noted searchall dav (live_name l) res)) num true [])
        ∙ live_end_lem l rest (e ∷ es) root (noted searchall dav (live_name l) res) num (joined ts),
  )

  typed_lem :
      (before inside after : List Bytes)
      → Does
          (property_events (typed before inside after))
          (with_property searchall (typed before inside after))
  typed_lem before inside after rest e es root res num cd = (
    joined inside ++ joined after,
    live_start_lem Live.resourcetype (texts before first) (e ∷ es) root res num cd
        ∙ texts_lem before first (live Live.resourcetype) (e ∷ es)
            (ctx root (some typed_res) num true [])
        ∙ live_start_lem Live.collection (texts inside second) (live Live.resourcetype ∷ e ∷ es)
            root typed_res num (joined before)
        ∙ texts_lem inside second (live Live.collection) (live Live.resourcetype ∷ e ∷ es)
            (ctx root (some inner) num true [])
        ∙ live_end_lem Live.collection (texts after third) (live Live.resourcetype ∷ e ∷ es) root
            inner num (joined inside)
        ∙ texts_lem after third (live Live.resourcetype) (e ∷ es) (
            ctx root (some (set_live Live.collection (joined inside) inner)) num true
              (joined inside))
        ∙ live_end_lem Live.resourcetype rest (e ∷ es) root
            (set_live Live.collection (joined inside) inner) num (joined inside ++ joined after),
  )
    where
      third : List Event
      third = end ∷ rest

      second : List Event
      second = end ∷ texts after third

      first : List Event
      first = start dav (live_name Live.collection) ∷ texts inside second

      typed_res : SearchRes
      typed_res = noted searchall dav (live_name Live.resourcetype) res

      inner : SearchRes
      inner = noted searchall dav (live_name Live.collection) typed_res

  unknown_lem :
      (nspace name : Bytes) (c : Content)
      → m.mapid nspace name ≡ declined
      → Does
          (property_events (unknown nspace name c))
          (with_property searchall (unknown nspace name c))
  unknown_lem nspace name c h rest e es root res num cd = (
    [],
    declined_lem nspace name c rest (e ∷ es) root (some res) num true cd h
        ∙ noted_lem nspace name rest (e ∷ es) root res num,
  )

  property_lem :
      (p : Property)
      → IsUnknown searchall m p
      → Does (property_events p) (with_property searchall p)
  property_lem (simple l ts) h = simple_lem l ts
  property_lem (typed before inside after) h = typed_lem before inside after
  property_lem (unknown nspace name c) h = unknown_lem nspace name c h

  pub props_lem :
      (ps : List (List Bytes × Property))
      → All (λ (p : List Bytes × Property). IsUnknown searchall m p.1) ps
      → Does (props_events ps) (with_props searchall ps)
  props_lem [] h rest e es root res num cd = (cd, refl)
  props_lem ((gap, p) ∷ ps) h rest e es root res num cd =
      let (cd', d) =
        property_lem p h.0 (props_events ps rest) e es root res num (cd ++ joined gap) in
      let (cd'', f) = props_lem ps h.1 rest e es root (with_property searchall p res) num cd' in
      (cd'', texts_lem gap _ e es (ctx root (some res) num true cd) ∙ d ∙ f)
