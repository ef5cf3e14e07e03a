-- ===== src/SearchResponse/Documents.antt =====
-- Responses to a search as the server sends them: what they describe, and the calls that the
-- parser makes for them.
use cadaver.Common.{◌≡◌, Bool, List, [], ◌∷◌, ◌++◌, if◌then◌else◌, All}
use cadaver.Common.Text.{Bytes, codes}
use cadaver.SearchResponse.{
  Live, live_name, Element, dav, Mapping, SearchRes, new_res, note, set_href, set_live, Event,
}
use Element.{declined}
use Event.{start, text, end}

-- What may stand in an element: nothing more, a piece of text, or an element with its content.
pub data Content : Type 0 where
  nothing : Content
  words : Bytes → Content → Content
  element : Bytes → Bytes → Content → Content → Content

-- What a server reports of a resource: a live property with its text, which comes in pieces, a
-- resource type of a collection, or an element that is not in the table, whatever it holds.
pub data Property : Type 0 where
  simple : Live → List Bytes → Property
  typed : List Bytes → List Bytes → List Bytes → Property
  unknown : Bytes → Bytes → Content → Property

-- The properties with the space before each, and the status.
pub record Propstat : Type 0 where
  pub props : List (List Bytes × Property)
  pub status : List Bytes

pub record Item : Type 0 where
  pub href : List Bytes
  pub propstats : List Propstat

abbrev pub texts : List Bytes → List Event → List Event
texts [] rest = rest
texts (t ∷ ts) rest = text t ∷ texts ts rest

abbrev pub content_events : Content → List Event → List Event
content_events nothing rest = rest
content_events (words t more) rest = text t ∷ content_events more rest
content_events (element nspace name inner more) rest =
    start nspace name ∷ content_events inner (end ∷ content_events more rest)

-- The calls for each part, with those of what follows.
abbrev pub property_events : Property → List Event → List Event
property_events (simple l ts) rest = start dav (live_name l) ∷ texts ts (end ∷ rest)
property_events (typed before inside after) rest =
    start dav (live_name Live.resourcetype)
    ∷ texts before
        (start dav (live_name Live.collection) ∷ texts inside (end ∷ texts after (end ∷ rest)))
property_events (unknown nspace name c) rest = start nspace name ∷ content_events c (end ∷ rest)

abbrev pub props_events : List (List Bytes × Property) → List Event → List Event
props_events [] rest = rest
props_events ((gap, p) ∷ ps) rest = texts gap (property_events p (props_events ps rest))

abbrev pub propstat_events : Propstat → List Event → List Event
propstat_events ps rest =
    start dav (codes "propstat")
    ∷ start dav (codes "prop")
    ∷ props_events ps.props (end ∷ start dav (codes "status") ∷ texts ps.status (end ∷ end ∷ rest))

abbrev pub propstats_events : List Propstat → List Event → List Event
propstats_events [] rest = rest
propstats_events (ps ∷ pss) rest = propstat_events ps (propstats_events pss rest)

abbrev pub items_events : List Item → List Event → List Event
items_events [] rest = rest
items_events (i ∷ items) rest =
    start dav (codes "response")
    ∷ start dav (codes "href")
    ∷ texts i.href (end ∷ propstats_events i.propstats (end ∷ items_events items rest))

abbrev pub document_events : List Item → List Event
document_events items = start dav (codes "multistatus") ∷ items_events items (end ∷ [])

abbrev pub joined : List Bytes → Bytes
joined [] = []
joined (t ∷ ts) = t ++ joined ts

module _ (searchall : Bool) where
  -- The results that the document describes: a live property has the text of its last element.
  abbrev pub noted : Bytes → Bytes → SearchRes → SearchRes
  noted nspace name res = if searchall then note nspace name res else res

  abbrev pub with_property : Property → SearchRes → SearchRes
  with_property (simple l ts) res = set_live l (joined ts) (noted dav (live_name l) res)
  with_property (typed before inside after) res =
      set_live Live.resourcetype (joined inside ++ joined after) (
        set_live Live.collection (joined inside)
          (noted dav (live_name Live.collection) (noted dav (live_name Live.resourcetype) res)))
  with_property (unknown nspace name c) res = noted nspace name res

  abbrev pub with_props : List (List Bytes × Property) → SearchRes → SearchRes
  with_props [] res = res
  with_props ((gap, p) ∷ ps) res = with_props ps (with_property p res)

  abbrev pub with_propstats : List Propstat → SearchRes → SearchRes
  with_propstats [] res = res
  with_propstats (ps ∷ pss) res = with_propstats pss (with_props ps.props res)

  abbrev pub described : Item → SearchRes
  described i = with_propstats i.propstats (set_href (joined i.href) new_res)

  -- The list grows at its head.
  abbrev pub stacked : List Item → List SearchRes → List SearchRes
  stacked [] root = root
  stacked (i ∷ items) root = stacked items (described i ∷ root)

module _ (searchall : Bool) (m : Mapping) where
  -- The names that are not in the table are those that neon does not find there.
  abbrev pub IsUnknown : Property → Type 0
  IsUnknown (simple l ts) = Unit
  IsUnknown (typed before inside after) = Unit
  IsUnknown (unknown nspace name c) = m.mapid nspace name ≡ declined

  abbrev pub IsReport : Item → Type 0
  IsReport i =
      All (λ (ps : Propstat). All (λ (p : List Bytes × Property). IsUnknown p.1) ps.props)
        i.propstats
