-- ===== src/Transfers/Tests.antt =====
-- Downloads and uploads, and instances of the theorems on them.
use cadaver.BaseName.{base_name}
use cadaver.Common.{ℕ, zero, suc, ◌≡◌, refl, true, false, [], ◌∷◌, none, some, if◌then◌else◌}
use cadaver.Common.Text.{Bytes, codes, streq}
use cadaver.Neon.Samples.{plain, site}
use cadaver.Transfers.{
  Node, Result, Remote, Machine, World, Message, execute_get, execute_resumeget, execute_put,
  multi_mget, multi_mput, do_get, choose_target,
}
use cadaver.Transfers.Kept.{multi_mget-disk}
use cadaver.Transfers.Resumed.{execute_resumeget-execute_get}
use cadaver.Transfers.Returned.{execute_get-execute_put}
use Node.{regular}

abbrev take_two : Bytes → Bytes
take_two (a ∷ b ∷ s) = a ∷ b ∷ []
take_two s = s

abbrev skip : ℕ → Bytes → Bytes
skip zero s = s
skip (suc n) [] = []
skip (suc n) (a ∷ s) = skip n s

-- A server that holds one resource, whatever its path.
abbrev store : Remote Bytes
store = record {
  ne_get = λ p s. (record { body = s; result = Result.ok }, s);
  ne_get_range = λ p start s. (record { body = skip start s; result = Result.ok }, s);
  ne_put = λ p body s. (Result.ok, body);
  ne_mkcol = λ p s. (Result.ok, s);
}

-- The same one where a download breaks off after two bytes.
abbrev flaky : Remote Bytes
flaky = record store {
  ne_get = λ p s. (record { body = take_two s; result = Result.failed (codes "reset") }, s);
}

abbrev machine : Machine
machine = record {
  permitted = λ f. true;
  close_fails = λ f. false;
  spawns = λ f. true;
  exits_abnormally = λ f. false;
  exists = λ f. false;
  read_special = λ f. [];
  pager = none;
  env_pager = none;
}

-- A disk with the file `a`; the user types `b` when asked.
abbrev world : World Bytes
world = record {
  disk = λ f. if streq f (codes "a") then some (regular (codes "old")) else none;
  answers = some (codes "b") ∷ [];
  remote = codes "abcd";
  said = [];
}

get_new :
    (execute_get store machine plain site (codes "x") none world).disk (codes "x")
    ≡ some (regular (codes "abcd"))
unfolding execute_get do_get choose_target base_name streq
get_new = refl

get_typed :
    (execute_get store machine plain site (codes "a") none world).disk (codes "b")
    ≡ some (regular (codes "abcd"))
unfolding execute_get do_get choose_target base_name streq
get_typed = refl

resume_missing :
    (execute_resumeget store machine plain site (codes "x") none world).said
    ≡ Message.cannot_resume (codes "x") ∷ []
unfolding execute_resumeget do_get choose_target base_name streq
resume_missing = refl

mput_sent : (multi_mput store machine plain site (codes "a" ∷ []) world).remote ≡ codes "old"
unfolding multi_mput streq
mput_sent = refl

multi_mget-disk_example :
    (multi_mget store machine plain site (codes "a" ∷ codes "x" ∷ []) world).disk (codes "a")
    ≡ some (regular (codes "old"))
unfolding streq
multi_mget-disk_example =
    multi_mget-disk store machine plain site (codes "a" ∷ codes "x" ∷ []) world (codes "a")
      (regular (codes "old")) refl refl

execute_resumeget-execute_get_example :
    (execute_resumeget flaky machine plain site
        (codes "x")
        (some (codes "x"))
        (execute_get flaky machine plain site (codes "x") (some (codes "x")) world)).disk
      (codes "x")
    ≡ some (regular (codes "abcd"))
unfolding streq
execute_resumeget-execute_get_example =
    execute_resumeget-execute_get flaky machine plain site (codes "x") (codes "x") (codes "ab")
      (codes "cd") world (Result.failed (codes "reset")) (codes "abcd") (codes "abcd") refl refl
      refl refl

execute_get-execute_put_example :
    (execute_get store machine plain site
        (codes "r")
        (some (codes "c"))
        (execute_put store machine plain site (codes "a") (some (codes "r")) world)).disk
      (codes "c")
    ≡ some (regular (codes "old"))
unfolding streq
execute_get-execute_put_example =
    execute_get-execute_put store machine plain site (codes "a") (codes "r") (codes "c")
      (codes "old") world Result.ok (codes "old") (codes "old") refl refl refl refl refl refl
