-- ===== src/Edit/Leftovers.antt =====
-- When the temporary file of an edit is left behind.
use cadaver.Common.{
  ◌≡◌, refl, ap, ◌∙◌, Bool, true, false, not, ◌&&◌, ◌||◌, List, [], ◌∷◌, ◌++◌, Option, ◌==◌,
  if◌then◌else◌, if_cases,
}
use cadaver.Common.Text.{Bytes}
use cadaver.Listing.{is_collection}
use cadaver.Edit.{
  Attempt, Answers, Event, is_lockable, uploads, when, around, ending, under_lock, edited, body,
  execute_edit, run_editor,
}
use cadaver.Edit.Locks.{Then, Then-bind}
use Event.{make_temp, unlink_temp, unlock, checkout, checkin, get, put}

-- Whether the file is there after an event, and after a sequence of them.
abbrev pub present : Bool → Event → Bool
present b make_temp = true
present b unlink_temp = false
present b _ = b

abbrev pub leaves : Bool → List Event → Bool
leaves b [] = b
leaves b (e ∷ es) = leaves (present b e) es

leaves-append : (b : Bool) (es fs : List Event) → leaves b (es ++ fs) ≡ leaves (leaves b es) fs
leaves-append b [] fs = refl
leaves-append b (e ∷ es) fs = leaves-append (present b e) es fs

Keeps : List Event → Type 0
Keeps es = (b : Bool) → leaves b es ≡ b

uploads-Keeps : (etag : Option Bytes) (ts : List Attempt) → Then Keeps (uploads etag ts)
unfolding uploads Keeps
uploads-Keeps etag [] = tt
uploads-Keeps etag (t ∷ ts) =
    if_cases (Then Keeps) (t.stored || not t.again) (λ e. λ b. refl)
      (λ e.
        Then-bind Keeps Keeps (uploads etag ts) (λ es. put etag ∷ es) (uploads-Keeps etag ts)
          (λ es h. h))

ending-leaves : (a : Answers) → leaves true (ending a) ≡ not a.unlinked
ending-leaves a = go a.unlinked (a.vcr_after == 2)
  where
    go : (u v : Bool) → leaves true (when u unlink_temp ++ when v checkin) ≡ not u
    go true true = refl
    go true false = refl
    go false true = refl
    go false false = refl

checkout-leaves : (b v : Bool) (es : List Event) → leaves b (when v checkout ++ es) ≡ leaves b es
checkout-leaves b true es = refl
checkout-leaves b false es = refl

body-leaves : (a : Answers) → Then (λ es. leaves true es ≡ not a.unlinked) (body a)
unfolding body edited Keeps
body-leaves a =
    Then-bind Keeps (λ es. leaves true es ≡ not a.unlinked) (edited a) (around a)
      (if_cases (Then Keeps) (a.closed && run_editor a && a.reopened)
        (λ e. uploads-Keeps a.etag a.attempts) (λ e. λ b. refl))
      (λ es h.
        checkout-leaves true (a.vcr_before == 1) (get ∷ (es ++ ending a))
        ∙ leaves-append true es (ending a)
        ∙ ap (λ b. leaves b (ending a)) (h true)
        ∙ ending-leaves a)

-- The file that is left, by the answers.
abbrev pub leftover : Answers → Bool
leftover a =
    if is_collection a.resource
    then false
    else if not a.mkstemp
    then false
    else if not a.chmod
    then true
    else if is_lockable a
    then (if a.locked then not a.unlinked else true)
    else not a.unlinked

abbrev Left : Bool → List Event → Type 0
Left v es = leaves false es ≡ v

-- The events, where there are any, leave the file as the Boolean says.
data Agrees (o : Option (List Event)) (v : Bool) : Type 0 where
  agrees : Then (Left v) o → Agrees o v

-- The same test on both sides.
both_lem :
    (b : Bool) {o p : Option (List Event)} {v w : Bool}
    → Agrees o v
    → Agrees p w
    → Agrees (if b then o else p) (if b then v else w)
both_lem true x y = x
both_lem false x y = y

execute_edit-Agrees : (a : Answers) → Agrees (execute_edit a) (leftover a)
unfolding execute_edit
execute_edit-Agrees a = both_lem (is_collection a.resource) (agrees refl) (
    both_lem (not a.mkstemp) (agrees refl) (
      both_lem (not a.chmod) (agrees refl) (
        both_lem (is_lockable a)
          (both_lem a.locked
            (agrees (
              Then-bind (λ es. leaves true es ≡ not a.unlinked) (Left (not a.unlinked)) (body a)
                under_lock (body-leaves a) (λ es h. leaves-append true es (unlock ∷ []) ∙ h)))
            (agrees refl))
          (agrees (
            Then-bind (λ es. leaves true es ≡ not a.unlinked) (Left (not a.unlinked)) (body a)
              (λ es. make_temp ∷ es) (body-leaves a) (λ es h. h))))))

-- The temporary file is left behind where its permissions cannot be set, where the lock is refused
-- and where it cannot be deleted, and in no other case.
pub execute_edit-leaves : (a : Answers) → Then (λ es. leaves false es ≡ leftover a) (execute_edit a)
execute_edit-leaves a = elim (execute_edit-Agrees a) [ agrees h ↦ h ]
