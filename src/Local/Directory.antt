-- ===== src/Local/Directory.antt =====
-- Where a sequence of `lcd` leaves the local directory.
use cadaver.Common.{◌<◌, ◌≡◌, refl, ◌∙◌, ap, List, [], ◌∷◌, Option, none, some, length, lt→ltb}
use cadaver.Common.Text.{Bytes}
use cadaver.Local.{System, LocalReport, changed, change_home, execute_lcd, execute_lpwd}

abbrev pub lcd_all : System → Bytes → List (Option Bytes) → Bytes
lcd_all s cwd [] = cwd
lcd_all s cwd (p ∷ ps) = lcd_all s (execute_lcd s cwd p).0 ps

-- The directory that a path leads to, or the one before where it cannot be entered; no path is
-- $HOME, where that is set.
abbrev pub entered : Bytes → Option Bytes → Bytes
entered cwd none = cwd
entered cwd (some dir) = dir

abbrev pub target : Option Bytes → Option Bytes → Option Bytes
target home (some p) = some p
target home none = home

abbrev pub goes : System → Bytes → Option Bytes → Bytes
goes s cwd none = cwd
goes s cwd (some path) = entered cwd (s.chdir cwd path)

abbrev pub walk : System → Bytes → List (Option Bytes) → Bytes
walk s cwd [] = cwd
walk s cwd (p ∷ ps) = walk s (goes s cwd (target s.home p)) ps

changed-entered : (cwd : Bytes) (o : Option Bytes) → (changed cwd o).0 ≡ entered cwd o
changed-entered cwd none = refl
changed-entered cwd (some dir) = refl

execute_lcd-goes :
    (s : System) (cwd : Bytes) (p : Option Bytes)
    → (execute_lcd s cwd p).0 ≡ goes s cwd (target s.home p)
unfolding execute_lcd
execute_lcd-goes s cwd (some p) = changed-entered cwd (s.chdir cwd p)
execute_lcd-goes s cwd none = go s.home
  where
    go : (o : Option Bytes) → (change_home s cwd o).0 ≡ goes s cwd o
    go none = refl
    go (some path) = changed-entered cwd (s.chdir cwd path)

lcd_all-walk :
    (s : System) (cwd : Bytes) (ps : List (Option Bytes)) → lcd_all s cwd ps ≡ walk s cwd ps
lcd_all-walk s cwd [] = refl
lcd_all-walk s cwd (p ∷ ps) =
    ap (λ d. lcd_all s d ps) (execute_lcd-goes s cwd p)
    ∙ lcd_all-walk s (goes s cwd (target s.home p)) ps

-- After any sequence of `lcd`, `lpwd` shows the directory that its paths lead to one after the other,
-- each from the last one that could be entered, where that name fits the buffer.
pub execute_lpwd-lcd_all :
    (s : System) (cwd : Bytes) (ps : List (Option Bytes))
    → length (walk s cwd ps) < s.bufsiz
    → execute_lpwd s (lcd_all s cwd ps) ≡ LocalReport.local_directory (walk s cwd ps)
unfolding execute_lpwd
execute_lpwd-lcd_all s cwd ps h = rw (lcd_all-walk s cwd ps) (rw (lt→ltb _ _ h) refl)
