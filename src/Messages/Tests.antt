-- ===== src/Messages/Tests.antt =====
-- Times that are shown in each of the forms.
use cadaver.Common.{◌≡◌, refl, false, Option, none, some}
use cadaver.Common.Text.{Bytes, codes}
use cadaver.Messages.{ℤ, pos, negsuc, format_time, Ret, ResultLine, out_handle}

abbrev as_format : Bytes → ℤ → Option Bytes
as_format fmt when = some fmt

forms :
    (format_time as_format (pos 100_000_000) (pos 99_999_000) ≡ codes "%b %e %H:%M")
    × (format_time as_format (pos 100_000_000) (pos 80_000_000) ≡ codes "%b %e  %Y")
    × (format_time as_format (pos 100_000_000) (pos 100_003_601) ≡ codes "%b %e  %Y")
    × (format_time as_format (pos 100_000_000) (negsuc 0) ≡ codes "  (unknown) ")
    × (format_time (λ f w. none) (pos 100_000_000) (pos 99_999_000) ≡ codes "???")
unfolding format_time
forms = (refl, refl, refl, refl, refl)

redirected :
    out_handle (Ret.ne_redirect (some (codes "/b"))) ≡ (ResultLine.redirect_to (codes "/b"), false)
unfolding out_handle
redirected = refl
