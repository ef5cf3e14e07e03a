-- ===== src/Session/Tests.antt =====
-- Runs of `cd` and of closing, and instances of their theorems.
use cadaver.Common.{◌≡◌, refl, true, false, ◌++◌, Option, none, some, arith, ◌==◌, if◌then◌else◌}
use cadaver.Common.Text.{Bytes, codes, streq}
use cadaver.Listing.{ResourceType}
use cadaver.Session.{Session, execute_cd}
use cadaver.Session.Directory.{cd, Arrives, execute_cd-Arrives}
use cadaver.Session.Ownership.{Alone, Paired}

abbrev resolve : Bytes → Bytes → Bytes
resolve current name = current ++ name ++ codes "/"

-- A server on which all is a collection but `/f/`.
abbrev getrestype : Bytes → Option ResourceType
getrestype p =
    some (if streq p (codes "/f/") then ResourceType.resr_normal else ResourceType.resr_collection)

-- At `/`, with the string at address 0.
abbrev at_root : Session
at_root = record {
  server = none;
  path = some 0;
  lastwp = none;
  sess = true;
  connected = true;
  isdav = true;
  caps = 0;
  heap = record { next = 1; cell = λ a. if a == 0 then some (codes "/") else none };
}

at_root-Alone : Alone at_root (codes "/")
at_root-Alone = record {
  p = 0;
  path = refl;
  lastwp = refl;
  connected = refl;
  below = omega arith;
  cells = λ a. refl;
}

-- At `/d/`, from `/`.
abbrev in_d : Session
in_d = record {
  server = none;
  path = some 1;
  lastwp = some 0;
  sess = true;
  connected = true;
  isdav = true;
  caps = 0;
  heap = record {
    next = 2;
    cell = λ a. if a == 1 then some (codes "/d/") else if a == 0 then some (codes "/") else none;
  };
}

in_d-Paired : Paired in_d (codes "/d/") (codes "/")
in_d-Paired = record {
  p = 1;
  q = 0;
  path = refl;
  lastwp = refl;
  connected = refl;
  distinct = λ e. omega (arith, e);
  p_below = omega arith;
  q_below = omega arith;
  cells = λ a. refl;
}

cd_d :
    cd false resolve getrestype (codes "/") none (codes "d") ≡ some (codes "/d/", some (codes "/"))
unfolding streq
cd_d = refl

cd_f : cd false resolve getrestype (codes "/") none (codes "f") ≡ some (codes "/", none)
unfolding streq
cd_f = refl

cd_back :
    cd false resolve getrestype (codes "/d/") (some (codes "/")) (codes "-")
    ≡ some (codes "/", some (codes "/d/"))
unfolding streq
cd_back = refl

execute_cd-Arrives_example :
    Arrives
      (execute_cd true resolve getrestype in_d (codes "-"))
      (cd true resolve getrestype (codes "/d/") (some (codes "/")) (codes "-"))
execute_cd-Arrives_example =
    execute_cd-Arrives true resolve getrestype in_d (codes "/d/") (some (codes "/")) (codes "-")
      in_d-Paired
