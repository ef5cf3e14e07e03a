-- ===== src/Versioning/Requests.antt =====
-- The paths that the versioning commands ask for.
use cadaver.Common.{◌≡◌, inl, inr, refl, Bool, true, false, Option, none, some, Bool-cases}
use cadaver.Common.Text.{Bytes}
use cadaver.Neon.{Neon, ends_with_slash}
use cadaver.Resolve.{Site, uri_resolve_native_coll, add_slash, utf8_from_native}
use cadaver.Resolve.Slashes.{add_slash-ends}
use cadaver.Versioning.{
  Request, execute_version, execute_checkin, execute_checkout, execute_uncheckout, execute_label,
  do_report, is_action,
}

-- A request for a collection, with a body where there is a label.
abbrev pub ForCollection : Request → Type 0
ForCollection r = ends_with_slash r.uri_path ≡ true

-- No request, or one for a collection.
abbrev pub Labels : Bool → Option Request → Type 0
Labels valid none = valid ≡ false
Labels valid (some r) = (valid ≡ true) × ForCollection r

module _ (n : Neon) (site : Site) where
  coll-ends_with_slash :
      (native_path : Bytes)
      → ((p : Bytes)
          → ends_with_slash p ≡ true
          → ends_with_slash (n.uri_resolve site.current p) ≡ true)
      → ends_with_slash (uri_resolve_native_coll n site native_path) ≡ true
  unfolding uri_resolve_native_coll
  coll-ends_with_slash native_path h =
      h (add_slash n (n.path_escape (utf8_from_native site native_path)))
        (add_slash-ends n (n.path_escape (utf8_from_native site native_path)))

  -- Every versioning command asks for the path of a collection, also where its argument names a file,
  -- and `label` sends a request exactly where the action is one of three, in any case; the
  -- resolution keeps a slash at the end.
  pub versioning-ForCollection :
      (native_path act value : Bytes)
      → ((p : Bytes)
          → ends_with_slash p ≡ true
          → ends_with_slash (n.uri_resolve site.current p) ≡ true)
      → ForCollection (execute_version n site native_path)
        × ForCollection (execute_checkin n site native_path)
        × ForCollection (execute_checkout n site native_path)
        × ForCollection (execute_uncheckout n site native_path)
        × ForCollection (do_report n site native_path)
        × Labels (is_action n site act) (execute_label n site native_path act value)
  unfolding execute_version execute_checkin execute_checkout execute_uncheckout do_report
      execute_label
  versioning-ForCollection native_path act value h =
      let e = coll-ends_with_slash native_path h in
      (
        e,
        e,
        e,
        e,
        e,
        elim (Bool-cases (is_action n site act)) [ inl b ↦ rw b (refl, e) | inr b ↦ rw b refl ],
      )
