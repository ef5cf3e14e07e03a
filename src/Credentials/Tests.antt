-- ===== src/Credentials/Tests.antt =====
-- Runs of the questions for credentials.
use cadaver.Common.{
  ℕ, zero, suc, ◌≡◌, refl, Bool, true, false, List, [], ◌∷◌, Option, none, some, arith,
}
use cadaver.Common.Text.{Bytes, codes, streq}
use cadaver.Credentials.Attempts.{
  authenticate, Ends, authenticate-Ends, supply_creds_server-note_logins, note_logins,
}
use cadaver.Credentials.Samples.{cut, length-cut}
use cadaver.Credentials.{
  Buffers, Answer, Supplied, supply_creds, supply_creds_server, ask_user, lead_in, lead_out,
  retrying, CertLine, Presented, cert_verify,
}
use cadaver.Progress.{out_transfer_plain}

abbrev small : Buffers
small = record { abufsiz = 6; strnzcpy = cut; strnzcpy_lem = length-cut }

-- A user who mistypes once.
abbrev typed : ℕ → Answer
typed zero = record { username = some (codes "joe"); password = some (codes "wrong") }
typed (suc n) = record { username = some (codes "joe"); password = some (codes "right") }

abbrev server : Bytes → Bytes → Bool
server u p = streq p (codes "right")

second_try :
    authenticate (λ n. supply_creds_server small none n (typed n)) server 4 0
    ≡ some (record {
      asked = 2;
      sent = (codes "joe", codes "wrong") ∷ (codes "joe", codes "right") ∷ [];
      granted = true;
    })
unfolding authenticate supply_creds_server ask_user supply_creds streq
second_try = refl

-- A password of the size of the buffer is refused, one byte less fits.
too_long :
    supply_creds small (record { username = some (codes "joe"); password = some (codes "secret") })
    ≡ Supplied.aborted
unfolding supply_creds
too_long = refl

fits :
    supply_creds small (record { username = some (codes "joe"); password = some (codes "right") })
    ≡ Supplied.supplied (codes "joe") (codes "right")
unfolding supply_creds
fits = refl

plain_again : retrying out_transfer_plain (Supplied.supplied [] []) ≡ codes "] Retrying ["
unfolding lead_in lead_out
plain_again = refl

authenticate-Ends_example : Ends 6 2 3 (
    authenticate
      (λ n. supply_creds_server small (some (codes "netrcname", codes "old")) n (typed n))
      server
      4
      0)
authenticate-Ends_example =
    authenticate-Ends small server typed (some (codes "netrcname", codes "old")) 0 (omega arith)

supply_creds_server-note_logins_example :
    supply_creds_server small
      (note_logins none (some (some (codes "joe"), some (codes "pw")) ∷ none ∷ []))
      0
      (typed 0)
    ≡ record {
      asked = false;
      result = Supplied.supplied (cut (codes "joe") 6) (cut (codes "pw") 6);
    }
supply_creds_server-note_logins_example =
    supply_creds_server-note_logins small (codes "joe") (codes "pw") none (none ∷ []) (typed 0)
      (refl, tt)

abbrev presented : Option Bytes → Bool → Presented
presented ident mismatch = record {
  identity = ident;
  digest = none;
  id_mismatch = mismatch;
  subject = codes "s";
  issuer = codes "i";
  valid_from = codes "a";
  valid_to = codes "b";
}

accepted :
    cert_verify (presented (some (codes "other")) true) (codes "host") true true
    ≡ some (
      CertLine.untrusted_for (codes "other")
          ∷ CertLine.issued_for_rather_than (codes "other") (codes "host")
          ∷ CertLine.intercepted
          ∷ CertLine.issued_to (codes "s")
          ∷ CertLine.issued_by (codes "i")
          ∷ CertLine.valid_between (codes "a") (codes "b")
          ∷ CertLine.accept_question
          ∷ [],
      true,
    )
unfolding cert_verify
accepted = refl

-- Where there is nobody to ask, a certificate that would be accepted is not.
not_a_terminal :
    (lines : List CertLine) × (cert_verify (presented none false) (codes "host") false true
      ≡ some (lines, false))
unfolding cert_verify
not_a_terminal = (_, refl)

null_identity : cert_verify (presented none true) (codes "host") true true ≡ none
unfolding cert_verify
null_identity = refl
