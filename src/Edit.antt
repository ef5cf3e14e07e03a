-- ===== src/Edit.antt =====
-- The `edit` command of src/edit.c: what it sends to the server and does to the temporary file, in
-- order, for given answers of the server, the system, the editor and the user.
pub mod Locks
pub mod Uploads
pub mod Leftovers
mod Tests
use cadaver.Common.{
  ◌>>=◌, ℕ, Bool, true, false, not, ◌&&◌, ◌||◌, List, [], ◌∷◌, ◌++◌, Option, none, some, ◌==◌,
  if◌then◌else◌,
}
use cadaver.Common.Text.{Bytes}
use cadaver.Listing.{ResourceType, is_collection}

-- One PUT: whether it succeeds, and else whether the user wants it again.
pub record Attempt : Type 0 where
  pub stored : Bool
  pub again : Bool

-- The answers, in the order in which they are asked for. A `stat` gives the modification time.
pub record Answers : Type 0 where
  pub resource : ResourceType
  -- `ne_lockstore_findbyuri` finds a lock.
  pub known_lock : Bool
  -- `dav_class2` of `ne_options`, if that succeeds.
  pub class2 : Option Bool
  pub mkstemp : Bool
  pub chmod : Bool
  pub locked : Bool
  pub vcr_before : ℕ
  -- The `Etag` of a successful GET, if there is one.
  pub etag : Option Bytes
  pub closed : Bool
  pub stat_before : Option ℕ
  pub stat_after : Option ℕ
  pub reopened : Bool
  pub attempts : List Attempt
  pub unlinked : Bool
  pub vcr_after : ℕ

pub data Event : Type 0 where
  make_temp unlink_temp lock unlock checkout checkin get : Event
  -- With the value of `If-Match`.
  put : Option Bytes → Event

abbrev is_true : Option Bool → Bool
is_true none = false
is_true (some b) = b

unfoldable pub is_lockable : Answers → Bool
is_lockable a = if a.known_lock then false else is_true a.class2

-- Whether the file has changed; an error counts as no change.
abbrev pub changed : Option ℕ → Option ℕ → Bool
changed none after = false
changed (some b) none = false
changed (some b) (some c) = not (b == c)

unfoldable pub run_editor : Answers → Bool
run_editor a = changed a.stat_before a.stat_after

-- The loop of uploads; `none` where the attempts given do not end it.
unfoldable pub uploads : Option Bytes → List Attempt → Option (List Event)
uploads etag [] = none
uploads etag (t ∷ ts) =
    let rest = uploads etag ts in
    if t.stored || not t.again then some (put etag ∷ []) else (rest >>= λ es. some (put etag ∷ es))

abbrev pub when : Bool → Event → List Event
when b e = if b then e ∷ [] else []

-- What is uploaded, after the download.
unfoldable pub edited : Answers → Option (List Event)
unfolding run_editor uploads
edited a = if a.closed && run_editor a && a.reopened then uploads a.etag a.attempts else some []

-- What comes after the uploads, but for the unlocking.
abbrev pub ending : Answers → List Event
ending a = when a.unlinked unlink_temp ++ when (a.vcr_after == 2) checkin

abbrev pub around : Answers → List Event → List Event
around a es = when (a.vcr_before == 1) checkout ++ (get ∷ (es ++ ending a))

-- From the test of the version to the check-in.
unfoldable pub body : Answers → Option (List Event)
unfolding edited
body a = edited a >>= λ es. some (around a es)

abbrev pub under_lock : List Event → List Event
under_lock es = make_temp ∷ (lock ∷ (es ++ unlock ∷ []))

-- Where the lock is refused, or the permissions cannot be set, the temporary file stays.
unfoldable pub execute_edit : Answers → Option (List Event)
unfolding is_lockable body
execute_edit a =
    if is_collection a.resource
    then some []
    else if not a.mkstemp
    then some []
    else if not a.chmod
    then some (make_temp ∷ [])
    else if is_lockable a
    then (if a.locked then (body a >>= λ es. some (under_lock es)) else some (make_temp ∷ []))
    else (body a >>= λ es. some (make_temp ∷ es))
