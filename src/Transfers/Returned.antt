-- ===== src/Transfers/Returned.antt =====
-- A file that is put on the server and fetched again.
use cadaver.Common.{◌≡◌, ◌∙◌, refl, ap, true, [], none, some}
use cadaver.Common.Text.{Bytes}
use cadaver.Neon.{Neon}
use cadaver.Resolve.{Site, uri_resolve_native}
use cadaver.Transfers.{
  Node, Result, Remote, Machine, World, Message, say, uploaded, execute_put, execute_get,
}
use cadaver.Transfers.Resumed.{get_lem, transfer-disk}
use Node.{regular}
use Message.{uploading, downloading}

module _ {S : Type 0} (r : Remote S) (c : Machine) (n : Neon) (site : Site) where
  put_lem :
      (local native_remote content : Bytes) (w : World S)
      → w.disk local ≡ some (regular content)
      → c.permitted local ≡ true
      → execute_put r c n site local (some native_remote) w
        ≡ uploaded r c n site
            (uri_resolve_native n site native_remote)
            (some content)
            (say (uploading local (uri_resolve_native n site native_remote)) w)
  unfolding execute_put
  put_lem local native_remote content w e p = rw (e, p) refl

  -- What `put` sends of a regular file, `get` brings back under a new name byte by byte, where the
  -- server gives back what it was given; both names may be opened.
  pub execute_get-execute_put :
      (local native_remote filename content : Bytes) (w : World S) (result : Result) (s t : S)
      → w.disk local ≡ some (regular content)
      → w.disk filename ≡ none
      → c.permitted local ≡ true
      → c.permitted filename ≡ true
      → r.ne_put (uri_resolve_native n site native_remote) content w.remote ≡ (result, s)
      → r.ne_get (uri_resolve_native n site native_remote) s
        ≡ (record { body = content; result = Result.ok }, t)
      → (execute_get r c n site native_remote
            (some filename)
            (execute_put r c n site local (some native_remote) w)).disk
          filename
        ≡ some (regular content)
  execute_get-execute_put local native_remote filename content w result s t e f p q k l =
      ap (λ x. (execute_get r c n site native_remote (some filename) x).disk filename)
        (put_lem local native_remote content w e p
          ∙ ap (λ (x : Result × S). say (Message.finished x.0) (record sent { remote = x.1 })) k)
      ∙ ap (λ x. x.disk filename) (get_lem r c n site native_remote filename after _ t f q l)
      ∙ transfer-disk r c n site filename [] content Result.ok t
          (say (downloading native_remote filename) after)
    where
      sent : World S
      sent = say (uploading local (uri_resolve_native n site native_remote)) w

      after : World S
      after = say (Message.finished result) (record sent { remote = s })
