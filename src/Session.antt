-- ===== src/Session.antt =====
-- The session of src/cadaver.c and the commands that change it: `set_path`, `close_connection`,
-- and `execute_cd` of src/commands.c. The two paths of the session are pointers
-- to strings on a heap, so that a string that is freed twice shows.
pub mod Ownership
pub mod Directory
pub mod Closing
mod Tests
use cadaver.Common.{
  ◌>>=◌, ℕ, zero, suc, ◌+◌, ◌≡◌, Bool, true, false, not, ◌&&◌, ◌||◌, List, [], ◌∷◌, ◌++◌, Option,
  none, some, ◌==◌, if◌then◌else◌,
}
use cadaver.Common.Text.{Bytes, codes, streq, strcaseeq}
use cadaver.Listing.{ResourceType, is_collection}
use cadaver.Neon.{Uri}

-- Strings on the heap; `next` has never been given out.
pub record Heap : Type 0 where
  pub next : ℕ
  pub cell : ℕ → Option Bytes

abbrev pub put : Heap → ℕ → Option Bytes → Heap
put h p v = record h { cell = λ a. if a == p then v else h.cell a }

-- `ne_strdup` and its kin.
abbrev pub alloc : Bytes → Heap → ℕ × Heap
alloc v h =
    (h.next, record { next = h.next + 1; cell = λ a. if a == h.next then some v else h.cell a })

abbrev pub freed_cell : Heap → ℕ → Option Bytes → Option Heap
freed_cell h p none = none
freed_cell h p (some v) = some (put h p none)

-- `ne_free`: `none` is a pointer that is freed and not allocated.
abbrev pub free : ℕ → Heap → Option Heap
free p h = freed_cell h p (h.cell p)

-- A NULL is freed to no effect.
abbrev pub free? : Option ℕ → Heap → Option Heap
free? none h = some h
free? (some p) h = free p h

-- `struct session`: `path` is `uri.path` and `server` the rest of `uri`.
pub record Session : Type 0 where
  pub server : Option Uri
  pub path : Option ℕ
  pub lastwp : Option ℕ
  pub sess : Bool
  pub connected : Bool
  pub isdav : Bool
  pub caps : ℕ
  pub heap : Heap

abbrev pub with_heap : Session → Heap → Session
with_heap s h = record s { heap = h }

-- `ne_uri_free` frees the path and clears the structure; `lastwp` is freed and keeps its value.
unfoldable pub close_connection : Session → Option Session
close_connection s = do
  h ← free? s.path s.heap
  h' ← free? s.lastwp h
  some (record s { server = none; path = none; sess = false; connected = false; heap = h' })

-- What `set_path` finds: the new value of `isdav`, or the failure that it returns.
unfoldable pub set_path : Bool → ResourceType → Option Bool
set_path tolerant t = if is_collection t || tolerant then some (is_collection t) else none

-- The two ends of `execute_cd`; `fresh` says that `dest` is not `lastwp`.
abbrev pub arrive : Session → ℕ → Bool → Option Bool → Option Session
arrive s dest fresh (some isdav) = do
  h ← (if fresh then free? s.lastwp s.heap else some s.heap)
  some (record s { heap = h; lastwp = s.path; path = some dest; isdav = isdav })
arrive s dest fresh none = do
  h ← (if fresh then free dest s.heap else some s.heap)
  some (with_heap s h)

-- `tolerant` is the global; `resolve` is `uri_resolve_native_coll` against the current path, and
-- `getrestype` that function on the server as it is, with `none` for its fault.
module _ (tolerant : Bool) (resolve : Bytes → Bytes → Bytes)
    (getrestype : Bytes → Option ResourceType) where
  abbrev pub change : Session → ℕ → Bool → Option Session
  change s dest fresh = do
    uri_path ← s.heap.cell dest
    t ← getrestype uri_path
    arrive s dest fresh (set_path tolerant t)

  -- A read of the current path, then the string that the resolution allocates.
  abbrev pub change_to : Session → Bytes → Option Session
  change_to s native_path = do
    p ← s.path
    current ← s.heap.cell p
    let (dest, h) = alloc (resolve current native_path) s.heap
    change (with_heap s h) dest true

  abbrev pub change_back : Session → Option ℕ → Option Session
  change_back s none = some s
  change_back s (some dest) = change s dest false

  unfoldable pub execute_cd : Session → Bytes → Option Session
  unfolding set_path
  execute_cd s native_path =
      if streq native_path (codes "-") then change_back s s.lastwp else change_to s native_path
