-- ===== src/Transfers/Resumed.antt =====
-- A download that is interrupted and resumed.
use cadaver.Common.{◌≡◌, ◌∙◌, refl, ap, true, [], ◌++◌, none, some, length}
use cadaver.Common.Text.{Bytes, streq_refl}
use cadaver.Neon.{Neon}
use cadaver.Resolve.{Site, uri_resolve_native}
use cadaver.Transfers.{
  Node, Result, Download, Remote, Machine, World, Message, say, choose_target, transfer, do_get,
  execute_get, execute_resumeget,
}
use Node.{regular}
use Message.{downloading}

module _ {S : Type 0} (r : Remote S) (c : Machine) (n : Neon) (site : Site) where
  -- A name that is not taken.
  pub get_lem :
      (native_remote filename : Bytes) (w : World S) (d : Download) (s : S)
      → w.disk filename ≡ none
      → c.permitted filename ≡ true
      → r.ne_get (uri_resolve_native n site native_remote) w.remote ≡ (d, s)
      → execute_get r c n site native_remote (some filename) w
        ≡ transfer r c filename (regular []) (d, s) (say (downloading native_remote filename) w)
  unfolding execute_get do_get choose_target
  get_lem native_remote filename w d s e p q = rw (e, p) (rw (e, q) refl)

  -- A name of a regular file that is to be completed.
  pub resumeget_lem :
      (native_remote filename old : Bytes) (w : World S) (d : Download) (s : S)
      → w.disk filename ≡ some (regular old)
      → c.permitted filename ≡ true
      → r.ne_get_range (uri_resolve_native n site native_remote) (length old) w.remote ≡ (d, s)
      → execute_resumeget r c n site native_remote (some filename) w
        ≡ transfer r c filename (regular old) (d, s) (say (downloading native_remote filename) w)
  unfolding execute_resumeget do_get choose_target
  resumeget_lem native_remote filename old w d s e p q = rw (e, p) (rw (e, q) refl)

  pub transfer-disk :
      (filename old body : Bytes) (result : Result) (s : S) (w : World S)
      → (transfer r c filename (regular old) (record { body = body; result = result }, s) w).disk
          filename
        ≡ some (regular (old ++ body))
  transfer-disk filename old body result s w = rw (streq_refl filename) refl

  -- A `get` under a new name that breaks off after `done`, and a `resumeget` that is given the rest,
  -- leave the whole content in the file, where the server gives `todo` for the range that starts at
  -- the length of `done`.
  pub execute_resumeget-execute_get :
      (native_remote filename done todo : Bytes) (w : World S) (result : Result) (s t : S)
      → w.disk filename ≡ none
      → c.permitted filename ≡ true
      → r.ne_get (uri_resolve_native n site native_remote) w.remote
        ≡ (record { body = done; result = result }, s)
      → r.ne_get_range (uri_resolve_native n site native_remote) (length done) s
        ≡ (record { body = todo; result = Result.ok }, t)
      → (execute_resumeget r c n site native_remote
            (some filename)
            (execute_get r c n site native_remote (some filename) w)).disk
          filename
        ≡ some (regular (done ++ todo))
  execute_resumeget-execute_get native_remote filename done todo w result s t e p q k =
      ap (λ x. (execute_resumeget r c n site native_remote (some filename) x).disk filename)
        (get_lem native_remote filename w _ s e p q)
      ∙ ap (λ x. x.disk filename)
          (resumeget_lem native_remote filename done after _ t
            (transfer-disk filename [] done result s (say (downloading native_remote filename) w)) p
            k)
      ∙ transfer-disk filename done todo Result.ok t
          (say (downloading native_remote filename) after)
    where
      after : World S
      after =
          transfer r c filename (regular []) (record { body = done; result = result }, s)
            (say (downloading native_remote filename) w)
