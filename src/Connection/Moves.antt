-- ===== src/Connection/Moves.antt =====
-- What `execute_cd` does to a session at a place.
use cadaver.Common.{
  bind_lem, ◌>>=◌, ◌≡◌, ◌∙◌, inl, inr, refl, sym, subst, ap, Bool, true, false, ◌||◌, Option, none,
  some, arith, if◌then◌else◌, Bool-cases,
}
use cadaver.Common.Text.{Bytes, codes, streq}
use cadaver.Connection.Places.{Place, Last, Holds, Stands, entered, cd_back, cd_at}
use cadaver.Listing.{ResourceType, is_collection}
use cadaver.Session.{
  Heap, Session, alloc, arrive, change_back, change_to, execute_cd, free?, freed_cell, put,
  set_path, with_heap,
}
use cadaver.Session.Directory.{Arrives, back, cd, change_lem, enter, execute_cd-Arrives}
use cadaver.Session.Ownership.{Represents, free_lem}
use Place.{at}
use Last.{absent, kept, freed}

-- A session on the heap that stands at a place; `none` is a fault on both sides.
abbrev pub Follows : Option Session → Option Place → Type 0
Follows r none = r ≡ none
Follows r (some pl) = (s : Session) × (r ≡ some s) × Stands s pl

abbrev pub previously : Option Bytes → Last
previously none = absent
previously (some previous) = kept previous

abbrev placed : Bytes × Option Bytes → Place
placed (current, previous) = at current (previously previous)

module _ (tolerant : Bool) (resolve : Bytes → Bytes → Bytes)
    (getrestype : Bytes → Option ResourceType) where
  arrives_lem :
      (r : Option Session) (o : Option (Bytes × Option Bytes))
      → Arrives r o
      → Follows r (o >>= λ x. some (placed x))
  arrives_lem r none a = a
  arrives_lem r (some (current, none)) a = a
  arrives_lem r (some (current, some previous)) a = a

  enter_lem :
      (current : Bytes) (previous : Option Bytes) (target : Bytes) (o : Option ResourceType)
      → (enter tolerant resolve getrestype current previous target o >>= λ x. some (placed x))
        ≡ (o >>= entered tolerant resolve getrestype current (previously previous) target)
  enter_lem current previous target none = refl
  enter_lem current none target (some t) = elim (Bool-cases (is_collection t || tolerant)) [
    | inl b ↦ rw b refl
    | inr b ↦ rw b refl
  ]
  enter_lem current (some previous) target (some t) =
      elim (Bool-cases (is_collection t || tolerant)) [ inl b ↦ rw b refl | inr b ↦ rw b refl ]

  back_lem :
      (current : Bytes) (previous : Option Bytes)
      → (back tolerant resolve getrestype current previous >>= λ x. some (placed x))
        ≡ cd_back tolerant resolve getrestype current (previously previous)
  back_lem current none = refl
  back_lem current (some target) = go (getrestype target)
    where
      go :
          (o : Option ResourceType)
          → (enter tolerant resolve getrestype current (some target) target o >>= λ x.
              some (placed x))
            ≡ (o >>= λ t. some (
                if is_collection t || tolerant
                then at target (kept current)
                else at current (kept target)))
      go none = refl
      go (some t) = elim (Bool-cases (is_collection t || tolerant)) [
        | inl b ↦ rw b refl
        | inr b ↦ rw b refl
      ]

  cd_lem :
      (current : Bytes) (previous : Option Bytes) (name : Bytes)
      → (cd tolerant resolve getrestype current previous name >>= λ x. some (placed x))
        ≡ cd_at tolerant resolve getrestype current (previously previous) name
  cd_lem current previous name = elim (Bool-cases (streq name (codes "-"))) [
    | inl b ↦ rw b (back_lem current previous)
    | inr b ↦
        rw b (enter_lem current previous (resolve current name) (getrestype (resolve current name)))
  ]

  kept-Follows :
      (s : Session) (current : Bytes) (previous : Option Bytes) (name : Bytes)
      → Represents s current previous
      → Follows
          (execute_cd tolerant resolve getrestype s name)
          (cd_at tolerant resolve getrestype current (previously previous) name)
  kept-Follows s current previous name r =
      subst (Follows (execute_cd tolerant resolve getrestype s name)) (cd_lem current previous name)
        (arrives_lem (execute_cd tolerant resolve getrestype s name)
          (cd tolerant resolve getrestype current previous name)
          (execute_cd-Arrives tolerant resolve getrestype s current previous name r))

  -- A `lastwp` that is freed cannot be read.
  back_freed_lem :
      (s : Session) (current : Bytes)
      → Holds s current true
      → change_back tolerant resolve getrestype s s.lastwp ≡ none
  back_freed_lem s current r =
      ap (λ o. change_back tolerant resolve getrestype s o) r.trails.1
      ∙ ap
          (λ o. o >>= λ uri_path.
            getrestype uri_path >>= λ t. arrive s r.trails.0 false (set_path tolerant t))
          {x = s.heap.cell r.trails.0} {y = none} (ground (arith, r.cells r.trails.0, r.trails.3))

  -- A `lastwp` that is freed cannot be freed for a fresh path.
  fresh_freed_lem :
      (s : Session) (current target : Bytes) (o : Option ResourceType)
      → Holds s current true × (s.connected ≡ true)
      → Follows
          (o >>= λ t.
            arrive (with_heap s (alloc target s.heap).1) s.heap.next true (set_path tolerant t))
          (o >>= entered tolerant resolve getrestype current freed target)
  unfolding set_path
  fresh_freed_lem s current target none r = refl
  fresh_freed_lem s current target (some t) (r, c) =
      elim (Bool-cases (is_collection t || tolerant)) [
        | inl b ↦ rw b (
            ap (λ o. free? o (alloc target s.heap).1 >>= entering) r.trails.1
            ∙ ap (λ o. freed_cell (alloc target s.heap).1 r.trails.0 o >>= entering)
                {x = (alloc target s.heap).1.cell r.trails.0} {y = none}
                (ground (arith, r.cells r.trails.0, r.trails.2, r.trails.3)))
        | inr b ↦ rw b (
          with_heap s (put (alloc target s.heap).1 s.heap.next none),
          rw (free_lem s.heap.next (alloc target s.heap).1 target (ground arith)) refl,
          (
            record {
              p = r.p;
              path = r.path;
              below = omega (arith, r.below);
              trails = (r.trails.0, r.trails.1, omega (arith, r.trails.2), r.trails.3);
              cells = λ a. ground (arith, r.cells a, r.cells s.heap.next, r.below);
            },
            c,
          ),
        )
      ]
    where
      entering : Heap → Option Session
      entering h =
          some (record s {
            heap = h;
            lastwp = s.path;
            path = some s.heap.next;
            isdav = is_collection t;
          })

  freed-Follows :
      (s : Session) (current name : Bytes)
      → Holds s current true × (s.connected ≡ true)
      → Follows
          (execute_cd tolerant resolve getrestype s name)
          (cd_at tolerant resolve getrestype current freed name)
  unfolding execute_cd
  freed-Follows s current name (r, c) = elim (Bool-cases (streq name (codes "-"))) [
    | inl b ↦ rw b (back_freed_lem s current r)
    | inr b ↦ rw b (
        subst
          (λ x.
            Follows x
              (getrestype target >>= entered tolerant resolve getrestype current freed target))
          (sym reads) (fresh_freed_lem s current target (getrestype target) (r, c)))
  ]
    where
      target : Bytes
      target = resolve current name

      reads : change_to tolerant resolve getrestype s name ≡ (
          getrestype target >>= λ t.
          arrive (with_heap s (alloc target s.heap).1) s.heap.next true (set_path tolerant t))
      reads =
          bind_lem s.path r.p _ r.path
          ∙ bind_lem (s.heap.cell r.p) current _ (ground (arith, r.cells r.p))
          ∙ change_lem tolerant resolve getrestype (with_heap s (alloc target s.heap).1) s.heap.next
              true target (getrestype target) (ground arith) refl

  -- `execute_cd` at any place does what `cd` does to places.
  pub execute_cd-Follows :
      (s : Session) (current : Bytes) (l : Last) (name : Bytes)
      → Stands s (at current l)
      → Follows
          (execute_cd tolerant resolve getrestype s name)
          (cd_at tolerant resolve getrestype current l name)
  execute_cd-Follows s current absent name r = kept-Follows s current none name r
  execute_cd-Follows s current (kept previous) name r =
      kept-Follows s current (some previous) name r
  execute_cd-Follows s current freed name r = freed-Follows s current name r
