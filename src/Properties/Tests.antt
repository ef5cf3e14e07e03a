-- ===== src/Properties/Tests.antt =====
-- Properties of one resource, and an instance of the theorem on them.
use cadaver.Common.{◌≡◌, refl, ap, sym, Bool, true, false, [], ◌∷◌, Option, none, some}
use cadaver.Common.Text.{Bytes, codes, streq}
use cadaver.Neon.Samples.{plain, site}
use cadaver.Properties.{
  PropName, PropServer, Texts, Line, execute_propset, execute_propdel, execute_propget,
  execute_chexec, propop,
}
use cadaver.Properties.Returned.{reported, execute_propget-execute_propset}

-- A server that keeps the last property only, whatever its name.
abbrev server : PropServer (Option Bytes)
server = record {
  proppatch = λ uri p v s. (true, v);
  propfind = λ uri p s. some (reported s);
  propfind_all = λ uri s. some [];
  propnames = λ uri s. some [];
  caps = λ uri s. some false;
}

abbrev latin : Texts
latin = record { run_iconv = λ t. t; shave = λ t. t; namespace = none }

-- A value that is neither of the two is refused before anything is asked.
chexec_usage :
    execute_chexec server latin plain site (codes "x") (codes "a") none ≡ (Line.usage, none)
unfolding execute_chexec streq
chexec_usage = refl

chexec_unsupported :
    execute_chexec server latin plain site (codes "+") (codes "a") none ≡ (Line.no_executable, none)
unfolding execute_chexec streq
chexec_unsupported = refl

execute_propget-execute_propset_example :
    (execute_propget server latin plain site (codes "a") (some (codes "author")) (some (codes "me"))
      ≡ Line.value_of (codes "author") (codes "me") ∷ [])
    × (execute_propget server latin plain site (codes "a") (some (codes "author")) none
        ≡ Line.no_result (codes "author") ∷ [])
unfolding execute_propset execute_propdel propop
execute_propget-execute_propset_example =
    execute_propget-execute_propset server latin plain site (codes "a") (codes "author")
      (codes "me") none (some (codes "me")) none kept refl refl refl refl
  where
    kept :
        (p : PropName) (w : Option Bytes) (a b : Option Bytes)
        → server.proppatch [] p w a ≡ (true, b)
        → some (reported b) ≡ some (reported w)
    kept p w a b e = ap (λ (z : Bool × Option Bytes). some (reported z.1)) (sym e)
