-- ===== src/Transfers/Outcomes.antt =====
-- What a download leaves on the disk, case by case.
use cadaver.Common.{◌≡◌, ◌⊎◌, Bool, true, false, List, ◌∷◌, ◌++◌, Option, none, some, length}
use cadaver.Common.Text.{Bytes}
use cadaver.Neon.{Neon}
use cadaver.Transfers.{
  Node, Flags, Disk, Remote, Machine, World, Target, open_node, write_node, set_file, next_answer,
  typed, cancelled,
}
use Node.{regular}
use Flags.{truncate}
use Target.{refused}

-- The disk after a download of `uri_path` under the name `filename`.
pub data Outcome {S : Type 0} (r : Remote S) (c : Machine) (uri_path filename : Bytes)
    (resume : Bool) (w : World S) (disk : Disk) : Type 0 where
  created :
      resume ≡ false
      → w.disk filename ≡ none
      → c.permitted filename ≡ true
      → disk ≡ set_file filename (some (regular (r.ne_get uri_path w.remote).0.body)) w.disk
      → Outcome r c uri_path filename resume w disk
  replaced :
      (taken : Node) (name : Bytes) (rest : List (Option Bytes)) (open_as : Node)
      → resume ≡ false
      → w.disk filename ≡ some taken
      → w.answers ≡ some name ∷ rest
      → c.permitted name ≡ true
      → open_node truncate (w.disk name) ≡ some open_as
      → disk ≡ set_file name (some (write_node (r.ne_get uri_path w.remote).0.body open_as)) w.disk
      → Outcome r c uri_path filename resume w disk
  extended :
      (old : Bytes)
      → resume ≡ true
      → w.disk filename ≡ some (regular old)
      → c.permitted filename ≡ true
      → disk
        ≡ set_file filename
            (some (regular (old ++ (r.ne_get_range uri_path (length old) w.remote).0.body)))
            w.disk
      → Outcome r c uri_path filename resume w disk
  no_name :
      (taken : Node)
      → resume ≡ false
      → w.disk filename ≡ some taken
      → typed (next_answer w.answers).0 ≡ refused cancelled
      → disk ≡ w.disk
      → Outcome r c uri_path filename resume w disk
  not_opened :
      (taken : Node) (name : Bytes) (rest : List (Option Bytes))
      → resume ≡ false
      → w.disk filename ≡ some taken
      → w.answers ≡ some name ∷ rest
      → (c.permitted name ≡ false) ⊎ (open_node truncate (w.disk name) ≡ none)
      → disk ≡ w.disk
      → Outcome r c uri_path filename resume w disk
  not_regular :
      resume ≡ true
      → ((old : Bytes) → w.disk filename ≡ some (regular old) → ⊥)
      → disk ≡ w.disk
      → Outcome r c uri_path filename resume w disk
  not_permitted :
      (resume ≡ true) ⊎ (w.disk filename ≡ none)
      → c.permitted filename ≡ false
      → disk ≡ w.disk
      → Outcome r c uri_path filename resume w disk
