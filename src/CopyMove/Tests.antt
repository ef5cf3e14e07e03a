-- ===== src/CopyMove/Tests.antt =====
-- Runs of copies and moves on a small server, and instances of the theorems.
use cadaver.BaseName.{base_name, slash}
use cadaver.Common.{◌≡◌, refl, ◌↔◌, Bool, true, false, List, [], ◌∷◌, ◌++◌, Option, some, arith}
use cadaver.Common.Text.{Bytes, codes, streq}
use cadaver.CopyMove.Names.{translate-resource}
use cadaver.CopyMove.Plans.{Plans, do_copymove-Plans}
use cadaver.CopyMove.{Op, planned, translate, ne_move, do_copymove, multi_move, execute_rename}
use cadaver.Neon.Samples.{plain, site}
use cadaver.Resolve.Slashes.{true-ends_with_slash, true-Answered, Answered}
use cadaver.Resolve.{getrestype, uri_resolve_native, uri_resolve_native_true}
use cadaver.Neon.{ends_with_slash}

abbrev resolve : Bytes → Option (Bytes × Bool)
resolve = uri_resolve_native_true plain site

moves_into_redirected :
    multi_move plain site true (codes "a.txt" ∷ codes "sub" ∷ [])
    ≡ ne_move true (codes "/d/a.txt") (codes "/d/sub/a.txt") ∷ []
unfolding multi_move uri_resolve_native_true uri_resolve_native getrestype streq base_name
moves_into_redirected = refl

-- The destination is itself replaced.
moves_onto_destination :
    multi_move plain site true (codes "sub//" ∷ codes "/d/" ∷ [])
    ≡ ne_move true (codes "/d/sub//") (codes "/d/") ∷ []
unfolding multi_move uri_resolve_native_true uri_resolve_native getrestype streq base_name
moves_onto_destination = refl

renames :
    execute_rename plain site (codes "a.txt") (codes "c.txt")
    ≡ ne_move false (codes "/d/a.txt") (codes "/d/c.txt") ∷ []
unfolding execute_rename uri_resolve_native_true uri_resolve_native getrestype streq
renames = refl

abbrev two : List Bytes
two = codes "a.txt" ∷ codes "b.txt" ∷ []

abbrev two_ops : List Op
two_ops =
    record { src = codes "/d/a.txt"; dest = codes "/d/sub/a.txt" }
    ∷ record { src = codes "/d/b.txt"; dest = codes "/d/sub/b.txt" }
    ∷ []

two_planned : do_copymove resolve (two ++ codes "sub" ∷ []) ≡ planned two_ops
unfolding do_copymove uri_resolve_native_true uri_resolve_native getrestype streq base_name
two_planned = refl

do_copymove-Plans_example :
    (do_copymove resolve (two ++ codes "sub" ∷ []) ≡ planned two_ops)
    ↔ ((r : Bytes × Bool) × (resolve (codes "sub") ≡ some r) × Plans resolve r.0 r.1 two two_ops)
do_copymove-Plans_example = do_copymove-Plans resolve two (codes "sub") two_ops

sub_resolves : resolve (codes "sub") ≡ some (codes "/d/sub/", true)
unfolding uri_resolve_native_true uri_resolve_native getrestype streq
sub_resolves = refl

file_resolves : resolve (codes "b.txt") ≡ some (codes "/d/b.txt", false)
unfolding uri_resolve_native_true uri_resolve_native getrestype streq
file_resolves = refl

translate-resource_example :
    translate (codes "/d/sub/") true (codes "/d" ++ slash ∷ codes "a.txt", false)
    ≡ planned (record { src = codes "/d/a.txt"; dest = codes "/d/sub/a.txt" })
translate-resource_example =
    translate-resource (codes "/d/sub/") (codes "/d") (codes "a.txt") (omega arith) (λ e. cc)

true-ends_with_slash_example : ends_with_slash (codes "/d/sub/") ≡ true
true-ends_with_slash_example = true-ends_with_slash plain site (codes "sub") sub_resolves

true-Answered_example :
    Answered plain site (uri_resolve_native plain site (codes "sub")) (codes "/d/sub/") true
true-Answered_example = true-Answered plain site (codes "sub") sub_resolves
