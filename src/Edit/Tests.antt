-- ===== src/Edit/Tests.antt =====
-- Runs of an edit, and instances of its theorems.
use cadaver.Common.{◌≡◌, refl, true, false, List, [], ◌∷◌, some, All}
use cadaver.Common.Text.{codes}
use cadaver.Edit.{Answers, Event, is_lockable, uploads, edited, body, execute_edit, run_editor}
use cadaver.Edit.Leftovers.{leaves, leftover, execute_edit-leaves}
use cadaver.Edit.Locks.{Then, follows, execute_edit-follows}
use cadaver.Edit.Uploads.{Fits, execute_edit-Fits, execute_edit-ends}
use cadaver.Listing.{ResourceType}
use Event.{make_temp, unlink_temp, lock, unlock, get, put}

-- The first upload fails and is repeated.
abbrev twice : Answers
twice = record {
  resource = ResourceType.resr_normal;
  known_lock = false;
  class2 = some true;
  mkstemp = true;
  chmod = true;
  locked = true;
  vcr_before = 0;
  etag = some (codes "x");
  closed = true;
  stat_before = some 1;
  stat_after = some 2;
  reopened = true;
  attempts = record { stored = false; again = true } ∷ record { stored = true; again = false } ∷ [];
  unlinked = true;
  vcr_after = 0;
}

twice_events :
    execute_edit twice
    ≡ some (
        make_temp
        ∷ lock
        ∷ get
        ∷ put (some (codes "x"))
        ∷ put (some (codes "x"))
        ∷ unlink_temp
        ∷ unlock
        ∷ [])
unfolding execute_edit is_lockable body edited run_editor uploads
twice_events = refl

-- The lock is refused, and the file stays.
refused : execute_edit (record twice { locked = false }) ≡ some (make_temp ∷ [])
unfolding execute_edit is_lockable
refused = refl

execute_edit-follows_example :
    Then (λ es. follows (is_lockable twice) false es ≡ some false) (execute_edit twice)
execute_edit-follows_example = execute_edit-follows twice

execute_edit-Fits_example : Then (λ es. All (Fits twice) es) (execute_edit twice)
execute_edit-Fits_example = execute_edit-Fits twice

execute_edit-ends_example : (es : List Event) × (execute_edit twice ≡ some es)
execute_edit-ends_example = execute_edit-ends twice refl

execute_edit-leaves_example : Then (λ es. leaves false es ≡ leftover twice) (execute_edit twice)
execute_edit-leaves_example = execute_edit-leaves twice
