-- ===== src/Transfers/Kept.antt =====
-- Which files a download may change.
use cadaver.BaseName.{base_name}
use cadaver.Common.{
  ℕ, ◌≡◌, ◌∙◌, inl, inr, refl, subst, ap, Bool, true, false, ◌||◌, List, [], ◌∷◌, ◌++◌, Option,
  none, some, arith, length, if◌then◌else◌, Bool-cases,
}
use cadaver.Common.Text.{Bytes, streq, streq_iff, streq_refl}
use cadaver.Neon.{Neon}
use cadaver.Resolve.{Site, uri_resolve_native}
use cadaver.Transfers.{
  Node, Flags, Remote, Machine, World, Target, open_node, write_node, say, downloading,
  choose_target, local_name, opened, download, do_get, execute_get, multi_mget,
}
use Node.{regular, directory, device}
use Flags.{truncate, append, exclusive}
use Target.{refused, into}

-- Whether one of the answers is the name.
abbrev pub typed_in : Bytes → List (Option Bytes) → Bool
typed_in f [] = false
typed_in f (none ∷ answers) = typed_in f answers
typed_in f (some a ∷ answers) = streq f a || typed_in f answers

-- What a download may do to what stands under one name.
pub data Kept (resume is_typed : Bool) (before after : Option Node) : Type 0 where
  same : after ≡ before → Kept resume is_typed before after
  created :
      (body : Bytes)
      → before ≡ none
      → after ≡ some (regular body)
      → Kept resume is_typed before after
  extended :
      (old tail : Bytes)
      → resume ≡ true
      → before ≡ some (regular old)
      → after ≡ some (regular (old ++ tail))
      → Kept resume is_typed before after
  replaced : resume ≡ false → is_typed ≡ true → Kept resume is_typed before after

module _ {S : Type 0} (r : Remote S) (c : Machine) where
  -- A name keeps its node unless it is the one that is open.
  opened_lem :
      (P : Option Node → Type 0) (resume : Bool) (uri_path filename f : Bytes) (start : ℕ)
      (node : Option Node) (w : World S)
      → P (w.disk f)
      → ((body : Bytes) (open_as : Node)
          → node ≡ some open_as
          → f ≡ filename
          → P (some (write_node body open_as)))
      → P ((opened r c resume uri_path filename start node w).disk f)
  opened_lem P resume uri_path filename f start none w h k = h
  opened_lem P resume uri_path filename f start (some open_as) w h k =
      elim (Bool-cases (streq f filename)) [
        | inl b ↦ rw b (k _ open_as refl ((streq_iff f filename).0 b))
        | inr b ↦ rw b h
      ]

  -- The same with the test of the permission.
  download_lem :
      (P : Option Node → Type 0) (resume : Bool) (uri_path native_remote filename f : Bytes)
      (flags : Flags) (start : ℕ) (w : World S)
      → P (w.disk f)
      → ((body : Bytes) (open_as : Node)
          → open_node flags (w.disk filename) ≡ some open_as
          → f ≡ filename
          → P (some (write_node body open_as)))
      → P ((download r c resume uri_path native_remote (into filename flags start) w).disk f)
  download_lem P resume uri_path native_remote filename f flags start w h k =
      elim (Bool-cases (c.permitted filename)) [
        | inl b ↦ rw b (opened_lem P resume uri_path filename f start _ _ h k)
        | inr b ↦ rw b (
            opened_lem P resume uri_path filename f start none
              (say (downloading native_remote filename) w) h (λ body n e. absurd cc))
      ]

  -- A file that was not there holds what was written.
  created_lem :
      (resume b : Bool) (body : Bytes) (before at_name : Option Node) (open_as : Node)
      → before ≡ at_name
      → at_name ≡ none
      → open_node exclusive at_name ≡ some open_as
      → Kept resume b before (some (write_node body open_as))
  created_lem resume b body before none (regular old) e g h = created body e (ap some (go h))
    where
      go : some (regular []) ≡ some (regular old) → regular (old ++ body) ≡ regular body
      go h = cc
  created_lem resume b body before none directory e g h = absurd cc
  created_lem resume b body before none device e g h = absurd cc
  created_lem resume b body before (some node) open_as e g h = absurd cc

  -- A file that was there grows.
  extended_lem :
      (b : Bool) (body old : Bytes) (before at_name : Option Node) (open_as : Node)
      → before ≡ at_name
      → at_name ≡ some (regular old)
      → open_node append at_name ≡ some open_as
      → Kept true b before (some (write_node body open_as))
  extended_lem b body old before (some (regular x)) (regular y) e g h =
      extended x body refl e (ap some (go h))
    where
      go : some (regular x) ≡ some (regular y) → regular (y ++ body) ≡ regular (x ++ body)
      go h = cc
  extended_lem b body old before (some (regular x)) directory e g h = absurd cc
  extended_lem b body old before (some (regular x)) device e g h = absurd cc
  extended_lem b body old before none open_as e g h = absurd cc
  extended_lem b body old before (some directory) open_as e g h = absurd cc
  extended_lem b body old before (some device) open_as e g h = absurd cc

  typed_lem : (f a : Bytes) (rest : List (Option Bytes)) → f ≡ a → typed_in f (some a ∷ rest) ≡ true
  typed_lem f a rest e = rw e (rw (streq_refl a) refl)

  module _ (n : Neon) (site : Site) where
    -- Whatever the server sends, a download does to each name one of these.
    pub do_get-Kept :
        (native_remote : Bytes) (native_local : Option Bytes) (resume : Bool) (w : World S)
        (f : Bytes)
        → Kept resume
            (typed_in f w.answers)
            (w.disk f)
            ((do_get r c n site native_remote native_local resume w).disk f)
    unfolding do_get choose_target
    do_get-Kept native_remote native_local resume w f = go resume (w.disk filename) refl w.answers
      where
        filename : Bytes
        filename = local_name native_remote native_local

        uri_path : Bytes
        uri_path = uri_resolve_native n site native_remote

        go :
            (resume : Bool) (o : Option Node)
            → w.disk filename ≡ o
            → (answers : List (Option Bytes))
            → Kept resume (typed_in f answers) (w.disk f) (
                let (target, rest) = choose_target resume filename o answers in
                (download r c resume uri_path native_remote target
                    (record w { answers = rest })).disk
                  f)
        go false none e answers =
            download_lem (Kept false (typed_in f answers) (w.disk f)) false uri_path native_remote
              filename f exclusive 0 (record w { answers = answers }) (same refl)
              (λ body open_as h g.
                created_lem false (typed_in f answers) body (w.disk f) (w.disk filename) open_as
                  (ap w.disk g) e h)
        go false (some node) e [] = same refl
        go false (some node) e (none ∷ answers) = same refl
        go false (some node) e (some [] ∷ answers) = same refl
        go false (some node) e (some (x ∷ a) ∷ answers) =
            download_lem (Kept false (typed_in f (some (x ∷ a) ∷ answers)) (w.disk f)) false
              uri_path native_remote (x ∷ a) f truncate 0 (record w { answers = answers })
              (same refl) (λ body open_as h g. replaced refl (typed_lem f (x ∷ a) answers g))
        go true none e answers = same refl
        go true (some (regular old)) e answers =
            download_lem (Kept true (typed_in f answers) (w.disk f)) true uri_path native_remote
              filename f append (length old) (record w { answers = answers }) (same refl)
              (λ body open_as h g.
                extended_lem (typed_in f answers) body old (w.disk f) (w.disk filename) open_as
                  (ap w.disk g) e h)
        go true (some directory) e answers = same refl
        go true (some device) e answers = same refl

    download_answers :
        (resume : Bool) (uri_path native_remote : Bytes) (t : Target) (w : World S)
        → (download r c resume uri_path native_remote t w).answers ≡ w.answers
    download_answers resume uri_path native_remote (refused m) w = refl
    download_answers resume uri_path native_remote (into filename flags start) w =
        go (if c.permitted filename then open_node flags (w.disk filename) else none)
      where
        go :
            (node : Option Node)
            → (opened r c resume uri_path filename start node
                (say (downloading native_remote filename) w)).answers
              ≡ w.answers
        go none = refl
        go (some node) = refl

    -- An answer that is not among those to come is not among those that are left.
    choose_target_lem :
        (f filename : Bytes) (o : Option Node) (answers : List (Option Bytes))
        → typed_in f answers ≡ false
        → typed_in f (choose_target false filename o answers).1 ≡ false
    unfolding choose_target
    choose_target_lem f filename none answers h = h
    choose_target_lem f filename (some node) [] h = refl
    choose_target_lem f filename (some node) (none ∷ answers) h = h
    choose_target_lem f filename (some node) (some a ∷ answers) h = ground arith

    -- A file that was there keeps its content, unless its name is typed.
    kept_lem :
        (before after : Option Node) (node : Node)
        → before ≡ some node
        → Kept false false before after
        → after ≡ some node
    kept_lem before after node e (same s) = s ∙ e
    kept_lem before after node e (created body b a) = absurd cc
    kept_lem before after node e (extended old tail k b a) = absurd cc
    kept_lem before after node e (replaced k b) = absurd cc

    left :
        (remote : Bytes) (w : World S) (f : Bytes)
        → typed_in f w.answers ≡ false
        → typed_in f (do_get r c n site remote none false w).answers ≡ false
    unfolding do_get
    left remote w f h =
        ap (typed_in f) (
          download_answers false (uri_resolve_native n site remote) remote
            (choose_target false (base_name remote) (w.disk (base_name remote)) w.answers).0
            (record w {
              answers =
                  (choose_target false (base_name remote) (w.disk (base_name remote)) w.answers).1;
            }))
        ∙ choose_target_lem f (base_name remote) (w.disk (base_name remote)) w.answers h

    -- `mget` keeps every file that was there and whose name the user does not type, however many
    -- names it is given and whatever the server sends.
    pub multi_mget-disk :
        (argv : List Bytes) (w : World S) (f : Bytes) (node : Node)
        → w.disk f ≡ some node
        → typed_in f w.answers ≡ false
        → (multi_mget r c n site argv w).disk f ≡ some node
    unfolding multi_mget execute_get
    multi_mget-disk [] w f node e h = e
    multi_mget-disk (remote ∷ argv) w f node e h =
        multi_mget-disk argv (do_get r c n site remote none false w) f node
          (kept_lem (w.disk f) _ node e (
            subst (λ b. Kept false b (w.disk f) ((do_get r c n site remote none false w).disk f)) h
              (do_get-Kept remote none false w f)))
          (left remote w f h)
