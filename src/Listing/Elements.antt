-- ===== src/Listing/Elements.antt =====
-- `ls_startelm` of src/ls.c: how the element `collection` in the answer makes a resource a collection.
use cadaver.Common.{Bool, true, false, ◌&&◌, ◌||◌, Option, none, some, if◌then◌else◌}
use cadaver.Common.Text.{Bytes, codes, streq}
use cadaver.Listing.{Resource, resr_collection}

-- The states: the property element of neon's own parser, the two of `ls_idmap`, any other one of a
-- parent, and 0, which is also NE_XML_DECLINE.
pub data ElmState : Type 0 where
  state_prop resourcetype collection other declined : ElmState

abbrev pub same_state : ElmState → ElmState → Bool
same_state state_prop state_prop = true
same_state resourcetype resourcetype = true
same_state collection collection = true
same_state other other = true
same_state declined declined = true
same_state _ _ = false

-- `ne_xml_mapid` on `ls_idmap`.
unfoldable pub ls_idmap : Bytes → Bytes → ElmState
ls_idmap nspace name =
    if streq nspace (codes "DAV:") && streq name (codes "resourcetype")
    then resourcetype
    else if streq nspace (codes "DAV:") && streq name (codes "collection")
    then collection
    else declined

abbrev pub accepted : ElmState → ElmState → Bool
accepted parent state =
    same_state parent state_prop && same_state state resourcetype
    || same_state parent resourcetype && same_state state collection

abbrev pub marked_collection : ElmState → Resource → Resource
marked_collection collection r = record r { type = resr_collection }
marked_collection _ r = r

abbrev pub started : ElmState → ElmState → Option Resource → ElmState × Option Resource
started parent state none = (declined, none)
started parent state (some r) =
    if accepted parent state then (state, some (marked_collection state r)) else (declined, some r)

-- The state that is returned, and the resource of the response that is being parsed.
unfoldable pub ls_startelm : ElmState → Bytes → Bytes → Option Resource → ElmState × Option Resource
unfolding ls_idmap
ls_startelm parent nspace name r = started parent (ls_idmap nspace name) r
