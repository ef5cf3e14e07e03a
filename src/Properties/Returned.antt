-- ===== src/Properties/Returned.antt =====
-- A property that is set and shown, set and deleted.
use cadaver.Common.{◌≡◌, ◌∙◌, ap, Bool, true, false, [], ◌∷◌, Option, none, some, arith}
use cadaver.Common.Text.{Bytes}
use cadaver.Neon.{Neon}
use cadaver.Properties.{
  PropName, Reported, PropServer, Texts, Line, native_from_utf8, prop_name, outcome, got,
  execute_propset, execute_propdel, execute_propget,
}
use cadaver.Resolve.{Site, uri_resolve_native, utf8_from_native}
use Reported.{value, absent}
use Line.{value_of, no_result, succeeded}

-- What a server reports of a property that was set, or removed.
abbrev pub reported : Option Bytes → Reported
reported none = absent
reported (some v) = value v

-- What is shown of an answer to a proppatch.
abbrev shown : {S : Type 0} → Bool × S → Line × S
shown (ok, t) = (outcome ok, t)

accepted : {S : Type 0} (y : Bool × S) (t : S) → shown y ≡ (succeeded, t) → y ≡ (true, t)
accepted {S} (true, s) t e = ap paired e
  where
    paired : Line × S → Bool × S
    paired z = (true, z.1)
accepted {S} (false, s) t e = absurd (never (ap line e))
  where
    line : Line × S → Line
    line z = z.0

    never : Line.failed ≡ succeeded → ⊥
    never e = ground arith

module _ {S : Type 0} (r : PropServer S) (x : Texts) (n : Neon) (site : Site) where
  abbrev pub Roundtrips : Bytes → Type 0
  Roundtrips v = native_from_utf8 site x (utf8_from_native site v) ≡ v

  -- Where the server accepts them and reports what it was told last, `propset` makes `propget` show the value that was typed, under the
  -- name that was typed, and `propdel` makes it find nothing; the texts survive the way to UTF-8
  -- and back.
  pub execute_propget-execute_propset :
      (res name v : Bytes) (s t u : S)
      → ((p : PropName) (w : Option Bytes) (a b : S)
          → r.proppatch (uri_resolve_native n site res) p w a ≡ (true, b)
          → r.propfind (uri_resolve_native n site res) p b ≡ some (reported w))
      → Roundtrips name
      → Roundtrips v
      → execute_propset r x n site res name v s ≡ (succeeded, t)
      → execute_propdel r x n site res name t ≡ (succeeded, u)
      → (execute_propget r x n site res (some name) t ≡ value_of name v ∷ [])
        × (execute_propget r x n site res (some name) u ≡ no_result name ∷ [])
  unfolding execute_propget execute_propset execute_propdel
  execute_propget-execute_propset res name v s t u keeps f g e d = (
    ap (got r x n site (prop_name r x n site name))
          (keeps (prop_name r x n site name) (some (utf8_from_native site v)) s t (accepted _ t e))
        ∙ ap (λ a. value_of a (native_from_utf8 site x (utf8_from_native site v)) ∷ []) f
        ∙ ap (λ a. value_of name a ∷ []) g,
    ap (got r x n site (prop_name r x n site name))
          (keeps (prop_name r x n site name) none t u (accepted _ u d))
        ∙ ap (λ a. no_result a ∷ []) f,
  )
