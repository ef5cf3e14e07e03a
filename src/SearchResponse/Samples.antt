-- ===== src/SearchResponse/Samples.antt =====
-- A response for tests, and the look-up of names in the table of elements.
use cadaver.Common.{◌≡◌, refl, true, List, [], ◌∷◌, All, ◌&&◌, if◌then◌else◌}
use cadaver.Common.Text.{Bytes, codes, streq}
use cadaver.SearchResponse.{Live, live_name, Element, dav, search_elements, Mapping}
use cadaver.SearchResponse.Documents.{Property, Content, Item, IsReport}
use Element.{live, declined}

-- The first row of the names, and zero where there is none.
abbrev find_element : List (Bytes × Bytes × Element) → Bytes → Bytes → Element
find_element [] nspace name = declined
find_element ((n, m, e) ∷ rows) nspace name =
    if streq nspace n && streq name m then e else find_element rows nspace name

pub find_live : (l : Live) → find_element search_elements dav (live_name l) ≡ live l
unfolding streq
find_live Live.creationdate = refl
find_live Live.displayname = refl
find_live Live.getcontentlanguage = refl
find_live Live.getcontentlength = refl
find_live Live.getcontenttype = refl
find_live Live.getetag = refl
find_live Live.getlastmodified = refl
find_live Live.lockdiscovery = refl
find_live Live.resourcetype = refl
find_live Live.source = refl
find_live Live.supportedlock = refl
find_live Live.collection = refl

unfoldable pub mapping : Mapping
unfolding streq
mapping = record {
  mapid = find_element search_elements;
  multistatus_lem = refl;
  response_lem = refl;
  href_lem = refl;
  propstat_lem = refl;
  prop_lem = refl;
  status_lem = refl;
  live_lem = find_live;
}

-- Two resources: a collection, and a file with a property of its own.
abbrev pub items : List Item
items =
    record {
      href = codes "/d" ∷ codes "/" ∷ [];
      propstats =
          record {
            props = (codes " " ∷ [], Property.typed [] [] []) ∷ [];
            status = codes "HTTP/1.1 200 OK" ∷ [];
          }
          ∷ [];
    }
    ∷ record {
      href = codes "/d/a" ∷ [];
      propstats =
          record {
            props =
                ([], Property.simple Live.getcontentlength (codes "1" ∷ codes "7" ∷ []))
                ∷ (
                  [],
                  Property.unknown (codes "urn:x") (codes "author") (
                      Content.words (codes "N")
                        (Content.element dav (codes "href") Content.nothing Content.nothing)),
                )
                ∷ [];
            status = [];
          }
          ∷ [];
    }
    ∷ []

pub items-IsReport : All (IsReport true mapping) items
unfolding mapping streq
items-IsReport = (((tt, tt), tt), (((tt, (refl, tt)), tt), tt))
