-- ===== src/Edit/Uploads.antt =====
-- What an edit uploads, and that its loop of uploads ends.
use cadaver.Common.{
  ◌>>=◌, ◌≡◌, refl, ap, Bool, true, false, not, ◌&&◌, ◌||◌, List, [], ◌∷◌, ◌++◌, Option, some, ◌==◌,
  if_cases, All, All-append, arith,
}
use cadaver.Common.Text.{Bytes}
use cadaver.Listing.{is_collection}
use cadaver.Edit.{
  Attempt, Answers, Event, is_lockable, uploads, when, around, ending, under_lock, edited, body,
  execute_edit, run_editor,
}
use cadaver.Edit.Locks.{Then, Then-bind}
use Event.{make_temp, unlink_temp, unlock, checkout, checkin, get, put}

-- An upload has the `Etag` of the download as its condition, and follows a change of the file.
abbrev pub Fits : Answers → Event → Type 0
Fits a (put etag) = (etag ≡ a.etag) × (run_editor a ≡ true)
Fits a _ = Unit

abbrev AllFit : Answers → List Event → Type 0
AllFit a es = All (Fits a) es

uploads_lem :
    (a : Answers) → run_editor a ≡ true → (ts : List Attempt) → Then (AllFit a) (uploads a.etag ts)
unfolding uploads
uploads_lem a r [] = tt
uploads_lem a r (t ∷ ts) =
    if_cases (Then (AllFit a)) (t.stored || not t.again) (λ e. ((refl, r), tt))
      (λ e.
        Then-bind (AllFit a) (AllFit a) (uploads a.etag ts) (λ es. put a.etag ∷ es)
          (uploads_lem a r ts) (λ es h. ((refl, r), h)))

when_lem : (a : Answers) (b : Bool) (e : Event) → Fits a e → AllFit a (when b e)
when_lem a true e h = (h, tt)
when_lem a false e h = tt

both_lem : (a b c : Bool) → (a && b && c) ≡ true → b ≡ true
both_lem true true c h = refl
both_lem true false c h = absurd (ground arith)
both_lem false b c h = absurd (ground arith)

body_lem : (a : Answers) → Then (AllFit a) (body a)
unfolding body edited
body_lem a =
    Then-bind (AllFit a) (AllFit a) (edited a) (around a)
      (if_cases (Then (AllFit a)) (a.closed && run_editor a && a.reopened)
        (λ e. uploads_lem a (both_lem a.closed (run_editor a) a.reopened e) a.attempts) (λ e. tt))
      (λ es h.
        All-append (Fits a) (when (a.vcr_before == 1) checkout) (get ∷ (es ++ ending a))
          (when_lem a (a.vcr_before == 1) checkout tt)
          (
            tt,
            All-append (Fits a) es (ending a) h (
                All-append (Fits a) (when a.unlinked unlink_temp) (when (a.vcr_after == 2) checkin)
                  (when_lem a a.unlinked unlink_temp tt)
                  (when_lem a (a.vcr_after == 2) checkin tt)),
          ))

-- Nothing is uploaded unless the editor has changed the file, and each upload is conditional on
-- the `Etag` of the download, if it had one.
pub execute_edit-Fits : (a : Answers) → Then (λ es. All (Fits a) es) (execute_edit a)
unfolding execute_edit
execute_edit-Fits a =
    if_cases (Then (AllFit a)) (is_collection a.resource) (λ e. tt)
      (λ e.
        if_cases (Then (AllFit a)) (not a.mkstemp) (λ e. tt)
          (λ e.
            if_cases (Then (AllFit a)) (not a.chmod) (λ e. (tt, tt))
              (λ e.
                if_cases (Then (AllFit a)) (is_lockable a)
                  (λ e.
                    if_cases (Then (AllFit a)) a.locked
                      (λ e.
                        Then-bind (AllFit a) (AllFit a) (body a) under_lock (body_lem a)
                          (λ es h. (tt, (tt, All-append (Fits a) es (unlock ∷ []) h (tt, tt)))))
                      (λ e. (tt, tt)))
                  (λ e.
                    Then-bind (AllFit a) (AllFit a) (body a) (λ es. make_temp ∷ es) (body_lem a)
                      (λ es h. (tt, h))))))

-- Some attempt succeeds or is not repeated.
abbrev pub ends : List Attempt → Bool
ends [] = false
ends (t ∷ ts) = t.stored || not t.again || ends ts

abbrev Returns : Option (List Event) → Type 0
Returns o = (es : List Event) × (o ≡ some es)

returns_lem :
    (o : Option (List Event)) (f : List Event → List Event)
    → Returns o
    → Returns (o >>= λ es. some (f es))
returns_lem o f r = (f r.0, ap (λ o. o >>= λ es. some (f es)) r.1)

uploads-ends :
    (etag : Option Bytes) (ts : List Attempt) → ends ts ≡ true → Returns (uploads etag ts)
unfolding uploads
uploads-ends etag [] h = absurd (ground arith)
uploads-ends etag (t ∷ ts) h =
    if_cases Returns (t.stored || not t.again) (λ e. (put etag ∷ [], refl))
      (λ e.
        returns_lem (uploads etag ts) (λ es. put etag ∷ es)
          (uploads-ends etag ts (ground (arith, e, h))))

-- An edit returns as soon as one of its uploads succeeds or is not repeated by the user.
pub execute_edit-ends :
    (a : Answers) → ends a.attempts ≡ true → (es : List Event) × (execute_edit a ≡ some es)
unfolding execute_edit body edited
execute_edit-ends a h =
    if_cases Returns (is_collection a.resource) (λ e. ([], refl))
      (λ e.
        if_cases Returns (not a.mkstemp) (λ e. ([], refl))
          (λ e.
            if_cases Returns (not a.chmod) (λ e. (_, refl))
              (λ e.
                if_cases Returns (is_lockable a)
                  (λ e.
                    if_cases Returns a.locked (λ e. returns_lem (body a) under_lock inner)
                      (λ e. (_, refl)))
                  (λ e. returns_lem (body a) (λ es. make_temp ∷ es) inner))))
  where
    inner : Returns (body a)
    inner = returns_lem (edited a) (around a) (
        if_cases Returns (a.closed && run_editor a && a.reopened)
          (λ e. uploads-ends a.etag a.attempts h) (λ e. ([], refl)))
