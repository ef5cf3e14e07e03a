-- ===== src/Session/Directory.antt =====
-- `cd` on the heap does what it should do on paths alone.
use cadaver.Common.{
  bind_lem, ◌>>=◌, ℕ, ◌∙◌, ◌≡◌, inl, inr, refl, Bool, true, false, Option, none, some, arith, sym,
  subst, if◌then◌else◌, Bool-cases, ◌||◌,
}
use cadaver.Common.Text.{Bytes, codes, streq}
use cadaver.Listing.{ResourceType, is_collection}
use cadaver.Session.{
  Heap, put, alloc, free?, Session, with_heap, set_path, arrive, change, change_to, change_back,
  execute_cd,
}
use cadaver.Session.Ownership.{Paired, Represents, free_lem, same_cells, next_lem}

-- A result on the heap that stands for a result on paths; `none` is a fault on both sides.
abbrev pub Arrives : Option Session → Option (Bytes × Option Bytes) → Type 0
Arrives r none = r ≡ none
Arrives r (some (current, previous)) = (s : Session) × (r ≡ some s) × Represents s current previous

module _ (tolerant : Bool) (resolve : Bytes → Bytes → Bytes)
    (getrestype : Bytes → Option ResourceType) where
  -- `cd` on paths: where the target is entered, the old path becomes the previous one.
  abbrev pub enter :
      Bytes → Option Bytes → Bytes → Option ResourceType → Option (Bytes × Option Bytes)
  enter current previous target none = none
  enter current previous target (some t) =
      if is_collection t || tolerant then some (target, some current) else some (current, previous)

  abbrev pub back : Bytes → Option Bytes → Option (Bytes × Option Bytes)
  back current none = some (current, none)
  back current (some target) = enter current (some target) target (getrestype target)

  abbrev pub cd : Bytes → Option Bytes → Bytes → Option (Bytes × Option Bytes)
  cd current previous native_path =
      if streq native_path (codes "-")
      then back current previous
      else (let target = resolve current native_path in
          enter current previous target (getrestype target))

  -- The two strings change places.
  swapped_lem :
      (s : Session) (current previous : Bytes) (b : Bool) (r : Paired s current previous)
      → Paired (record s { lastwp = s.path; path = some r.q; isdav = b }) previous current
  swapped_lem s current previous b r = record {
    p = r.q;
    q = r.p;
    path = refl;
    lastwp = r.path;
    connected = r.connected;
    distinct = λ e. r.distinct (sym e);
    p_below = r.q_below;
    q_below = r.p_below;
    cells = λ a. ground (arith, r.cells a, r.distinct);
  }

  -- What `change` does once the string at `dest` and its resource are known.
  pub change_lem :
      (s : Session) (dest : ℕ) (fresh : Bool) (target : Bytes) (o : Option ResourceType)
      → s.heap.cell dest ≡ some target
      → getrestype target ≡ o
      → change tolerant resolve getrestype s dest fresh
        ≡ (o >>= λ t. arrive s dest fresh (set_path tolerant t))
  change_lem s dest fresh target o c e = rw (c, e)

  change_back-Arrives :
      (s : Session) (current : Bytes) (previous : Option Bytes)
      → Represents s current previous
      → Arrives (change_back tolerant resolve getrestype s s.lastwp) (back current previous)
  unfolding set_path
  change_back-Arrives s current none r = (s, ground arith, r)
  change_back-Arrives s current (some previous) r =
      subst
        (λ o. Arrives (change_back tolerant resolve getrestype s o) (back current (some previous)))
        (sym r.lastwp)
        (subst (λ o. Arrives o (back current (some previous)))
          (sym (
            change_lem s r.q false previous (getrestype previous)
              (ground (arith, r.cells r.q, r.distinct)) refl))
          (go (getrestype previous)))
    where
      go :
          (o : Option ResourceType)
          → Arrives
              (o >>= λ t. arrive s r.q false (set_path tolerant t))
              (enter current (some previous) previous o)
      go none = refl
      go (some t) = elim (Bool-cases (is_collection t || tolerant)) [
        | inl b ↦ rw b (
          record s { lastwp = s.path; path = some r.q; isdav = is_collection t },
          refl,
          swapped_lem s current previous (is_collection t) r,
        )
        | inr b ↦ rw b (s, refl, r)
      ]

  -- A fresh string takes the place of the current path, which takes that of the previous one.
  entered_lem :
      (s : Session) (current : Bytes) (previous : Option Bytes) (target : Bytes) (b : Bool)
      → Represents s current previous
      → Arrives
          (arrive (with_heap s (alloc target s.heap).1) s.heap.next true (some b))
          (some (target, some current))
  entered_lem s current none target b r =
      subst
        (λ o.
          Arrives
            (free? o (alloc target s.heap).1 >>= λ h.
              some (record s { heap = h; lastwp = s.path; path = some s.heap.next; isdav = b }))
            (some (target, some current)))
        (sym r.lastwp)
        (
          _,
          refl,
          record {
            p = s.heap.next;
            q = r.p;
            path = refl;
            lastwp = r.path;
            connected = r.connected;
            distinct = λ e. omega (arith, e, r.below);
            p_below = omega arith;
            q_below = omega (arith, r.below);
            cells = λ a. ground (arith, r.cells a);
          },
        )
  entered_lem s current (some previous) target b r =
      subst
        (λ o.
          Arrives
            (free? o (alloc target s.heap).1 >>= λ h.
              some (record s { heap = h; lastwp = s.path; path = some s.heap.next; isdav = b }))
            (some (target, some current)))
        (sym r.lastwp)
        (subst
          (λ o.
            Arrives
              (o >>= λ h.
                some (record s { heap = h; lastwp = s.path; path = some s.heap.next; isdav = b }))
              (some (target, some current)))
          (sym (
            free_lem r.q (alloc target s.heap).1 previous
              (ground (arith, r.cells r.q, r.distinct, r.q_below))))
          (
            _,
            refl,
            record {
              p = s.heap.next;
              q = r.p;
              path = refl;
              lastwp = r.path;
              connected = r.connected;
              distinct = λ e. omega (arith, e, r.p_below);
              p_below = omega arith;
              q_below = omega (arith, r.p_below);
              cells = λ a. ground (arith, r.cells a, r.distinct, r.q_below);
            },
          ))

  -- A fresh string that is freed again.
  refused_lem :
      (s : Session) (current : Bytes) (previous : Option Bytes) (target : Bytes)
      → Represents s current previous
      → Arrives
          (arrive (with_heap s (alloc target s.heap).1) s.heap.next true none)
          (some (current, previous))
  refused_lem s current previous target r = (
    with_heap s h,
    rw (free_lem s.heap.next (alloc target s.heap).1 target (ground arith)) refl,
    same_cells s h current previous (omega arith)
        (λ a. ground (arith, next_lem s current previous r)) r,
  )
    where
      h : Heap
      h = put (alloc target s.heap).1 s.heap.next none

  -- Entering a target, or staying, once its resource is known.
  fresh-Arrives :
      (s : Session) (current : Bytes) (previous : Option Bytes) (target : Bytes)
      (o : Option ResourceType)
      → Represents s current previous
      → Arrives
          (o >>= λ t.
            arrive (with_heap s (alloc target s.heap).1) s.heap.next true (set_path tolerant t))
          (enter current previous target o)
  unfolding set_path
  fresh-Arrives s current previous target none r = refl
  fresh-Arrives s current previous target (some t) r =
      elim (Bool-cases (is_collection t || tolerant)) [
        | inl b ↦ rw b (entered_lem s current previous target (is_collection t) r)
        | inr b ↦ rw b (refused_lem s current previous target r)
      ]

  path_lem :
      (s : Session) (current : Bytes) (previous : Option Bytes)
      → Represents s current previous
      → (p : ℕ) × (s.path ≡ some p) × (s.heap.cell p ≡ some current)
  path_lem s current none r = (r.p, r.path, ground (arith, r.cells r.p))
  path_lem s current (some previous) r = (r.p, r.path, ground (arith, r.cells r.p))

  change_to-Arrives :
      (s : Session) (current : Bytes) (previous : Option Bytes) (native_path : Bytes)
      → Represents s current previous
      → (let target = resolve current native_path in
          Arrives
            (change_to tolerant resolve getrestype s native_path)
            (enter current previous target (getrestype target)))
  change_to-Arrives s current previous native_path r =
      subst (λ o. Arrives o (enter current previous target (getrestype target))) (sym reads)
        (fresh-Arrives s current previous target (getrestype target) r)
    where
      target : Bytes
      target = resolve current native_path

      reads : change_to tolerant resolve getrestype s native_path ≡ (
          getrestype target >>= λ t.
          arrive (with_heap s (alloc target s.heap).1) s.heap.next true (set_path tolerant t))
      reads =
          bind_lem s.path _ _ (path_lem s current previous r).1
          ∙ bind_lem (s.heap.cell _) current _ (path_lem s current previous r).2
          ∙ change_lem (with_heap s (alloc target s.heap).1) s.heap.next true target
              (getrestype target) (ground arith) refl

  -- On a session that owns just its path strings, `execute_cd` frees no string twice, reads none
  -- that is freed and leaks none, and changes the two paths as `cd` does; it faults where and only
  -- where `cd` does, which is where `getrestype` does.
  pub execute_cd-Arrives :
      (s : Session) (current : Bytes) (previous : Option Bytes) (native_path : Bytes)
      → Represents s current previous
      → Arrives
          (execute_cd tolerant resolve getrestype s native_path)
          (cd current previous native_path)
  unfolding execute_cd
  execute_cd-Arrives s current previous native_path r =
      elim (Bool-cases (streq native_path (codes "-"))) [
        | inl b ↦ rw b (change_back-Arrives s current previous r)
        | inr b ↦ rw b (change_to-Arrives s current previous native_path r)
      ]
