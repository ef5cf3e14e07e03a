-- ===== src/Local/Tests.antt =====
-- Runs of the commands about the local directory.
use cadaver.Common.{◌≡◌, refl, false, true, [], ◌∷◌, ◌++◌, none, some, if◌then◌else◌}
use cadaver.Common.Text.{codes, streq}
use cadaver.Local.Directory.{lcd_all}
use cadaver.Local.{
  System, LocalReport, LlsStep, Fork, HeadLine, execute_lcd, execute_lls, execute_head,
}

-- A directory is entered below the current one, and `no` is not there.
abbrev system : System
system = record {
  home = none;
  chdir = λ cwd p. if streq p (codes "no") then none else some (cwd ++ codes "/" ++ p);
  bufsiz = 64;
}

no_home_set : execute_lcd system (codes "/a") none ≡ (codes "/a", LocalReport.no_home_directory)
unfolding execute_lcd
no_home_set = refl

walks :
    lcd_all system
      (codes "/a")
      (some (codes "b") ∷ some (codes "no") ∷ none ∷ some (codes "c") ∷ [])
    ≡ codes "/a/b/c"
unfolding execute_lcd streq
walks = refl

child_words :
    execute_lls Fork.in_child (codes "lls") (codes "-l" ∷ [])
    ≡ LlsStep.run_ls (codes "lls" ∷ codes "-l" ∷ [])
unfolding execute_lls
child_words = refl

head_refused : execute_head (λ p. p) (λ p. none) (codes "a") ≡ ([], false)
unfolding execute_head
head_refused = refl

head_shown :
    execute_head
      (λ p. p)
      (λ p.
        some (record { code = 200; headers = (codes "Etag", codes "x") ∷ []; discarded = true }))
      (codes "a")
    ≡ (HeadLine.status_code 200 ∷ HeadLine.header (codes "Etag") (codes "x") ∷ [], true)
unfolding execute_head
head_shown = refl
