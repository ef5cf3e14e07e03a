-- ===== src/SearchResponse/Dead.antt =====
-- What the properties of a response leave alone: the address of the result, and its dead properties.
use cadaver.Common.{
  arith, length, ◌+◌, ◌≡◌, ◌∙◌, inl, inr, refl, Bool, List, [], ◌∷◌, Bool-cases, All,
}
use cadaver.Common.Text.{Bytes}
use cadaver.SearchResponse.{Live, live_name, dav, SearchRes, new_res, set_href}
use cadaver.SearchResponse.Documents.{
  Property, Propstat, Item, joined, noted, with_property, with_props, with_propstats, described,
  stacked,
}
use Property.{simple, typed, unknown}

-- The same address and the same dead properties.
abbrev pub IsKept : SearchRes → SearchRes → Type 0
IsKept a b = (a.href ≡ b.href) × (a.root ≡ b.root)

trans_lem : (a b c : SearchRes) → IsKept a b → IsKept b c → IsKept a c
trans_lem a b c h k = (h.0 ∙ k.0, h.1 ∙ k.1)

pub length-stacked :
    (searchall : Bool) (items : List Item) (root : List SearchRes)
    → length (stacked searchall items root) ≡ length items + length root
length-stacked searchall [] root = omega arith
length-stacked searchall (i ∷ items) root =
    omega (arith, length-stacked searchall items (described searchall i ∷ root))

module _ (searchall : Bool) where
  noted-IsKept :
      (nspace name : Bytes) (res : SearchRes) → IsKept (noted searchall nspace name res) res
  noted-IsKept nspace name res = elim (Bool-cases searchall) [
    | inl b ↦ rw b (refl, refl)
    | inr b ↦ rw b (refl, refl)
  ]

  property-IsKept : (p : Property) (res : SearchRes) → IsKept (with_property searchall p res) res
  property-IsKept (simple l ts) res = noted-IsKept dav (live_name l) res
  property-IsKept (typed before inside after) res =
      trans_lem (noted searchall dav (live_name Live.collection) first) first res
        (noted-IsKept dav (live_name Live.collection) first)
        (noted-IsKept dav (live_name Live.resourcetype) res)
    where
      first : SearchRes
      first = noted searchall dav (live_name Live.resourcetype) res
  property-IsKept (unknown nspace name c) res = noted-IsKept nspace name res

  props-IsKept :
      (ps : List (List Bytes × Property)) (res : SearchRes)
      → IsKept (with_props searchall ps res) res
  props-IsKept [] res = (refl, refl)
  props-IsKept ((gap, p) ∷ ps) res =
      trans_lem (with_props searchall ps (with_property searchall p res))
        (with_property searchall p res) res (props-IsKept ps (with_property searchall p res))
        (property-IsKept p res)

  propstats-IsKept :
      (pss : List Propstat) (res : SearchRes) → IsKept (with_propstats searchall pss res) res
  propstats-IsKept [] res = (refl, refl)
  propstats-IsKept (ps ∷ pss) res =
      trans_lem (with_propstats searchall pss (with_props searchall ps.props res))
        (with_props searchall ps.props res) res
        (propstats-IsKept pss (with_props searchall ps.props res)) (props-IsKept ps.props res)

  pub described-IsKept :
      (i : Item) → IsKept (described searchall i) (set_href (joined i.href) new_res)
  described-IsKept i = propstats-IsKept i.propstats (set_href (joined i.href) new_res)

  abbrev pub IsBare : SearchRes → Type 0
  IsBare res = res.root ≡ []

  pub stacked-IsBare :
      (items : List Item) (root : List SearchRes)
      → All IsBare root
      → All IsBare (stacked searchall items root)
  stacked-IsBare [] root h = h
  stacked-IsBare (i ∷ items) root h =
      stacked-IsBare items (described searchall i ∷ root) ((described-IsKept i).1, h)
