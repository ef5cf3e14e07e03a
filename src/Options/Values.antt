-- ===== src/Options/Values.antt =====
-- The values that the handled options show are values that they take.
use cadaver.Common.{◌≡◌, refl}
use cadaver.Common.Text.{strcaseeq, streq, tolower}
use cadaver.Options.{
  LockScope, Depth, set_lockscope, disp_lockscope, set_lockdepth, disp_lockdepth, set_searchdepth,
  disp_searchdepth,
}
use LockScope.{exclusive, shared}
use Depth.{depth_zero, depth_one, depth_infinite}

-- The depth that is read back, where `old` was set before.
abbrev pub settled : Depth → Depth → Depth
settled depth_one old = old
settled d old = d

-- `set` of what is shown gives the value shown, but leaves the depth one of `lockdepth` out, which
-- is shown as an illegal value.
pub set-disp :
    (s old : LockScope) (d e : Depth)
    → (set_lockscope (disp_lockscope s) old ≡ s)
      × (set_searchdepth (disp_searchdepth d) ≡ d)
      × (set_lockdepth (disp_lockdepth d) e ≡ settled d e)
unfolding set_lockscope set_searchdepth set_lockdepth streq strcaseeq tolower
set-disp s old d e = (scope s, search d, lock d)
  where
    scope : (s : LockScope) → set_lockscope (disp_lockscope s) old ≡ s
    scope exclusive = refl
    scope shared = refl

    search : (d : Depth) → set_searchdepth (disp_searchdepth d) ≡ d
    search depth_zero = refl
    search depth_one = refl
    search depth_infinite = refl

    lock : (d : Depth) → set_lockdepth (disp_lockdepth d) e ≡ settled d e
    lock depth_zero = refl
    lock depth_one = refl
    lock depth_infinite = refl
