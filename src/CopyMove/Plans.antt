-- ===== src/CopyMove/Plans.antt =====
-- A plan is all or nothing, and it is the one that the resolved paths call for.
use mathlib.Core.List.{Memᴰ}
use cadaver.BaseName.{base_name}
use cadaver.Common.{
  ◌≡◌, ◌≢◌, refl, subst, ap, ◌∙◌, ◌↔◌, ◌⊎◌, Bool, true, false, List, [], ◌∷◌, ◌++◌, Option, none,
  some, if◌then◌else◌, but_last, last_or, arith, but_last-append, last_or-append,
}
use cadaver.Common.Text.{Bytes, streq_iff}
use cadaver.CopyMove.{
  Plan, planned, refused, fault, ◌>>=◌, Op, root, translate, resolved, Request, perform, build,
  do_copymove,
}

-- The last segment of a resolved source.
abbrev pub name_of : Bytes → Bool → Bytes
name_of src src_is_coll = base_name (if src_is_coll then but_last src else src)

-- What one source asks for.
abbrev pub Translates : Bytes → Bool → Bytes × Bool → Op → Type 0
Translates dest dest_is_coll (src, src_is_coll) op =
    (src ≢ root)
    × (src_is_coll ≡ true → dest_is_coll ≡ true)
    × (op.src ≡ src)
    × (op.dest ≡ (if dest_is_coll then dest ++ name_of src src_is_coll else dest))

translate-Translates :
    (dest : Bytes) (c : Bool) (r : Bytes × Bool) (op : Op)
    → translate dest c r ≡ planned op
    → Translates dest c r op
unfolding translate
translate-Translates dest true (src, true) op h = ground (arith, streq_iff src root)
translate-Translates dest true (src, false) op h = ground (arith, streq_iff src root)
translate-Translates dest false (src, true) op h = ground (arith, streq_iff src root)
translate-Translates dest false (src, false) op h = ground (arith, streq_iff src root)

pub Translates-translate :
    (dest : Bytes) (c : Bool) (r : Bytes × Bool) (op : Op)
    → Translates dest c r op
    → translate dest c r ≡ planned op
unfolding translate
Translates-translate dest c (src, sc) op h = ground (arith, streq_iff src root)

-- A bind that is planned has both of its parts planned.
>>=-planned {ℓ κ} :
    {A : Type ℓ} {B : Type κ} (m : Plan A) (f : A → Plan B) {b : B}
    → (m >>= f) ≡ planned b
    → (a : A) × (m ≡ planned a) × (f a ≡ planned b)
>>=-planned (planned a) f h = (a, refl, h)
>>=-planned (refused e) f h = cc
>>=-planned fault f h = cc

planned-injective : {a b : List Op} → planned a ≡ planned b → a ≡ b
planned-injective h = cc

resolved-planned :
    (o : Option (Bytes × Bool)) {r : Bytes × Bool} → resolved o ≡ planned r → o ≡ some r
resolved-planned none h = cc
resolved-planned (some r) h = cc

module _ (resolve : Bytes → Option (Bytes × Bool)) where
  -- Each source resolves and asks for its operation, in the order of the arguments.
  abbrev pub Plans : Bytes → Bool → List Bytes → List Op → Type 0
  Plans dest c [] [] = Unit
  Plans dest c (arg ∷ args) (op ∷ ops) =
      ((r : Bytes × Bool) × (resolve arg ≡ some r) × Translates dest c r op) × Plans dest c args ops
  Plans dest c _ _ = ⊥

  build-Plans :
      (dest : Bytes) (c : Bool) (args : List Bytes) (ops : List Op)
      → build resolve dest c args ≡ planned ops
      → Plans dest c args ops
  unfolding build
  build-Plans dest c [] [] h = tt
  build-Plans dest c [] (op ∷ ops) h = cc
  build-Plans dest c (arg ∷ args) ops h =
      let (r, e1, h1) = >>=-planned (resolved (resolve arg)) _ h in
      let (o, e2, h2) = >>=-planned (translate dest c r) _ h1 in
      let (os, e3, h3) = >>=-planned (build resolve dest c args) _ h2 in
      subst (Plans dest c (arg ∷ args)) (planned-injective h3) (
        (r, resolved-planned (resolve arg) e1, translate-Translates dest c r o e2),
        build-Plans dest c args os e3,
      )

  Plans-build :
      (dest : Bytes) (c : Bool) (args : List Bytes) (ops : List Op)
      → Plans dest c args ops
      → build resolve dest c args ≡ planned ops
  unfolding build
  Plans-build dest c [] [] h = refl
  Plans-build dest c [] (op ∷ ops) h = absurd h
  Plans-build dest c (arg ∷ args) [] h = absurd h
  Plans-build dest c (arg ∷ args) (op ∷ ops) ((r, e, t), p) =
      rw (e, Translates-translate dest c r op t, Plans-build dest c args ops p)

  -- The plan for sources and a destination is made exactly when the destination and each source
  -- resolve, no source is the server's root, and no collection goes to what is not one; it then has
  -- one operation for each source, in order, onto the destination or onto a name in it.
  pub do_copymove-Plans :
      (args : List Bytes) (dest : Bytes) (ops : List Op)
      → (do_copymove resolve (args ++ dest ∷ []) ≡ planned ops)
        ↔ ((r : Bytes × Bool) × (resolve dest ≡ some r) × Plans r.0 r.1 args ops)
  unfolding do_copymove
  do_copymove-Plans args dest ops = (forth, back)
    where
      forth :
          do_copymove resolve (args ++ dest ∷ []) ≡ planned ops
          → (r : Bytes × Bool) × (resolve dest ≡ some r) × Plans r.0 r.1 args ops
      forth h =
          let (r, e, h') = >>=-planned (resolved (resolve (last_or (args ++ dest ∷ []) []))) _ h in
          (
            r,
            rw (last_or-append args dest []) at (resolved-planned _ e),
            build-Plans r.0 r.1 args ops (rw (but_last-append args dest) at h'),
          )

      back :
          ((r : Bytes × Bool) × (resolve dest ≡ some r) × Plans r.0 r.1 args ops)
          → do_copymove resolve (args ++ dest ∷ []) ≡ planned ops
      back (r, e, p) =
          rw (last_or-append args dest [], but_last-append args dest, e)
            (Plans-build r.0 r.1 args ops p)

  Plans-mem :
      (dest : Bytes) (c : Bool) (args : List Bytes) (ops : List Op) {arg : Bytes}
      → Plans dest c args ops
      → Memᴰ arg args
      → (r : Bytes × Bool) × (op : Op) × (resolve arg ≡ some r) × Translates dest c r op
  Plans-mem dest c [] ops p m = elim m [ ]
  Plans-mem dest c (a ∷ args) [] p m = absurd p
  Plans-mem dest c (a ∷ args) (op ∷ ops) ((r, e, t), p) (Memᴰ.head x) = (r, op, ap resolve x ∙ e, t)
  Plans-mem dest c (a ∷ args) (op ∷ ops) (h, p) (Memᴰ.tail m) = Plans-mem dest c args ops p m

  -- One source that may not be moved or copied stops the whole command before its first request:
  -- the server's root, or a collection while the destination is not one.
  pub perform-none :
      (cb : Op → Request) (args : List Bytes) (dest arg src dest_path : Bytes)
      (src_is_coll dest_is_coll : Bool)
      → Memᴰ arg args
      → resolve arg ≡ some (src, src_is_coll)
      → resolve dest ≡ some (dest_path, dest_is_coll)
      → (src ≡ root) ⊎ ((src_is_coll ≡ true) × (dest_is_coll ≡ false))
      → perform cb (do_copymove resolve (args ++ dest ∷ [])) ≡ []
  perform-none cb args dest arg src dest_path sc dc m e ed bad =
      go (do_copymove resolve (args ++ dest ∷ [])) refl
    where
      go : (p : Plan (List Op)) → do_copymove resolve (args ++ dest ∷ []) ≡ p → perform cb p ≡ []
      go (refused x) h = refl
      go fault h = refl
      go (planned ops) h =
          let (r, er, ps) = (do_copymove-Plans args dest ops).0 h in
          let (q, op, eq, t) = Plans-mem r.0 r.1 args ops ps m in absurd (ground arith)
