-- ===== src/Edit/Locks.antt =====
-- The order of the events of an edit: locks and uploads.
use cadaver.Common.{
  ◌>>=◌, ◌≡◌, refl, ap, ◌∙◌, Bool, true, false, not, ◌&&◌, ◌||◌, List, [], ◌∷◌, ◌++◌, Option, none,
  some, ◌==◌, if◌then◌else◌, if_cases,
}
use cadaver.Common.Text.{Bytes}
use cadaver.Listing.{is_collection}
use cadaver.Edit.{
  Attempt, Answers, Event, is_lockable, uploads, when, around, ending, under_lock, edited, body,
  execute_edit, run_editor,
}
use Event.{make_temp, unlink_temp, lock, unlock, checkout, checkin, get, put}

-- One event: a lock is taken when none is held and given back when one is, and an upload is made
-- only when the lock is held just as `lockable` says.
abbrev pub permits : Bool → Bool → Event → Option Bool
permits lockable held lock = if held then none else some true
permits lockable held unlock = if held then some false else none
permits lockable true (put etag) = if lockable then some true else none
permits lockable false (put etag) = if lockable then none else some false
permits lockable held _ = some held

abbrev pub follows : Bool → Bool → List Event → Option Bool
follows lockable held [] = some held
follows lockable held (e ∷ es) = permits lockable held e >>= λ h. follows lockable h es

assoc_lem :
    (o : Option Bool) (f g k : Bool → Option Bool)
    → ((h : Bool) → f h ≡ (g h >>= k))
    → (o >>= f) ≡ ((o >>= g) >>= k)
assoc_lem none f g k e = refl
assoc_lem (some h) f g k e = e h

follows-append :
    (l h : Bool) (es fs : List Event)
    → follows l h (es ++ fs) ≡ (follows l h es >>= λ h. follows l h fs)
follows-append l h [] fs = refl
follows-append l h (e ∷ es) fs = assoc_lem (permits l h e) _ _ _ (λ h. follows-append l h es fs)

-- An event that needs no lock.
when_lem :
    (l h b : Bool) (e : Event) (es : List Event)
    → permits l h e ≡ some h
    → follows l h (when b e ++ es) ≡ follows l h es
when_lem l h true e es p = ap (λ o. o >>= λ h. follows l h es) p
when_lem l h false e es p = refl

-- A predicate on the result, where there is one.
abbrev pub Then : (List Event → Type 0) → Option (List Event) → Type 0
Then P none = Unit
Then P (some es) = P es

pub Then-bind :
    (P Q : List Event → Type 0) (o : Option (List Event)) (f : List Event → List Event)
    → Then P o
    → ((es : List Event) → P es → Q (f es))
    → Then Q (o >>= λ es. some (f es))
Then-bind P Q none f p k = tt
Then-bind P Q (some es) f p k = k es p

uploads_lem :
    (l : Bool) (etag : Option Bytes) (ts : List Attempt)
    → Then (λ es. follows l l es ≡ some l) (uploads etag ts)
unfolding uploads
uploads_lem l etag [] = tt
uploads_lem l etag (t ∷ ts) =
    if_cases (Then (λ es. follows l l es ≡ some l)) (t.stored || not t.again) (λ e. one l)
      (λ e.
        Then-bind (λ es. follows l l es ≡ some l) (λ es. follows l l es ≡ some l) (uploads etag ts)
          (λ es. put etag ∷ es) (uploads_lem l etag ts) (λ es h. more l es h))
  where
    one : (l : Bool) → follows l l (put etag ∷ []) ≡ some l
    one true = refl
    one false = refl

    more :
        (l : Bool) (es : List Event)
        → follows l l es ≡ some l
        → follows l l (put etag ∷ es) ≡ some l
    more true es h = h
    more false es h = h

edited_lem : (l : Bool) (a : Answers) → Then (λ es. follows l l es ≡ some l) (edited a)
unfolding edited
edited_lem l a =
    if_cases (Then (λ es. follows l l es ≡ some l)) (a.closed && run_editor a && a.reopened)
      (λ e. uploads_lem l a.etag a.attempts) (λ e. refl)

body_lem : (l : Bool) (a : Answers) → Then (λ es. follows l l es ≡ some l) (body a)
unfolding body
body_lem l a =
    Then-bind (λ es. follows l l es ≡ some l) (λ es. follows l l es ≡ some l) (edited a) (around a)
      (edited_lem l a)
      (λ es h.
        when_lem l l (a.vcr_before == 1) checkout (get ∷ (es ++ ending a)) refl
        ∙ follows-append l l es (ending a)
        ∙ ap (λ o. o >>= λ h. follows l h (ending a)) h
        ∙ when_lem l l a.unlinked unlink_temp (when (a.vcr_after == 2) checkin) refl
        ∙ last (a.vcr_after == 2))
  where
    last : (b : Bool) → follows l l (when b checkin) ≡ some l
    last true = refl
    last false = refl

locked_lem :
    (es : List Event)
    → follows true true es ≡ some true
    → follows true false (under_lock es) ≡ some false
locked_lem es h =
    follows-append true true es (unlock ∷ []) ∙ ap (λ o. o >>= λ h. follows true h (unlock ∷ [])) h

-- Every upload is made under the lock where the resource can be locked, and without one where it
-- cannot; a lock that is taken is given back, and no other.
pub execute_edit-follows :
    (a : Answers) → Then (λ es. follows (is_lockable a) false es ≡ some false) (execute_edit a)
unfolding execute_edit
execute_edit-follows a = go (is_lockable a)
  where
    P : Bool → Option (List Event) → Type 0
    P l = Then (λ es. follows l false es ≡ some false)

    inner :
        (l : Bool)
        → P l (
            if l
            then (if a.locked
                then (body a >>= λ es. some (under_lock es))
                else some (make_temp ∷ []))
            else (body a >>= λ es. some (make_temp ∷ es)))
    inner false =
        Then-bind (λ es. follows false false es ≡ some false)
          (λ es. follows false false es ≡ some false) (body a) (λ es. make_temp ∷ es)
          (body_lem false a) (λ es h. h)
    inner true =
        if_cases (P true) a.locked
          (λ e.
            Then-bind (λ es. follows true true es ≡ some true)
              (λ es. follows true false es ≡ some false) (body a) under_lock (body_lem true a)
              locked_lem)
          (λ e. refl)

    go :
        (l : Bool)
        → P l (
            if is_collection a.resource
            then some []
            else if not a.mkstemp
            then some []
            else if not a.chmod
            then some (make_temp ∷ [])
            else if l
            then (if a.locked
                then (body a >>= λ es. some (under_lock es))
                else some (make_temp ∷ []))
            else (body a >>= λ es. some (make_temp ∷ es)))
    go l =
        if_cases (P l) (is_collection a.resource) (λ e. refl)
          (λ e.
            if_cases (P l) (not a.mkstemp) (λ e. refl)
              (λ e. if_cases (P l) (not a.chmod) (λ e. refl) (λ e. inner l)))
