-- ===== src/Session/Closing.antt =====
-- What `close_connection` frees, and what it leaves behind.
use cadaver.Common.{bind_lem, ◌>>=◌, ℕ, ◌≡◌, ◌∙◌, refl, ap, false, Option, none, some, arith}
use cadaver.Common.Text.{Bytes}
use cadaver.Session.{Heap, put, free?, freed_cell, Session, close_connection}
use cadaver.Session.Ownership.{Paired, Represents, free_lem}

unfoldable pub closed_at : Session → Heap → Session
closed_at s h = record s { server = none; path = none; sess = false; connected = false; heap = h }

-- `close_connection` once the pointers are known.
pub close_lem :
    (s : Session) (path lastwp : Option ℕ) (h h' : Heap)
    → s.path ≡ path
    → s.lastwp ≡ lastwp
    → free? path s.heap ≡ some h
    → free? lastwp h ≡ some h'
    → close_connection s ≡ some (closed_at s h')
unfolding close_connection closed_at
close_lem s path lastwp h h' e f a b =
    ap (λ o. free? o s.heap >>= λ h. free? s.lastwp h >>= λ h. some (closed_at s h)) e
    ∙ bind_lem (free? path s.heap) h _ a
    ∙ ap (λ o. free? o h >>= λ h. some (closed_at s h)) f
    ∙ bind_lem (free? lastwp h) h' _ b

-- No string is left, and only `lastwp` still points to one.
abbrev pub Closed : Session → Session → Type 0
Closed s s' =
    ((a : ℕ) → s'.heap.cell a ≡ none)
    × (s'.path ≡ none)
    × (s'.lastwp ≡ s.lastwp)
    × (s'.connected ≡ false)

-- `close_connection` frees the strings of a session that owns just its path strings, each once.
pub close_connection-Closed :
    (s : Session) (current : Bytes) (previous : Option Bytes)
    → Represents s current previous
    → (s' : Session) × (close_connection s ≡ some s') × Closed s s'
unfolding closed_at
close_connection-Closed s current none r = (
  closed_at s (put s.heap r.p none),
  close_lem s (some r.p) none _ _ r.path r.lastwp
      (free_lem r.p s.heap current (ground (arith, r.cells r.p))) refl,
  ((λ a. ground (arith, r.cells a)), refl, refl, refl),
)
close_connection-Closed s current (some previous) r = (
  closed_at s (put (put s.heap r.p none) r.q none),
  close_lem s (some r.p) (some r.q) (put s.heap r.p none) _ r.path r.lastwp
      (free_lem r.p s.heap current (ground (arith, r.cells r.p)))
      (free_lem r.q (put s.heap r.p none) previous (ground (arith, r.cells r.q, r.distinct))),
  ((λ a. ground (arith, r.cells a)), refl, refl, refl),
)

-- A `lastwp` that points to nothing.
pub faults_lem :
    (s : Session) (path : Option ℕ) (q : ℕ) (h : Heap)
    → s.path ≡ path
    → s.lastwp ≡ some q
    → free? path s.heap ≡ some h
    → h.cell q ≡ none
    → close_connection s ≡ none
unfolding close_connection closed_at
faults_lem s path q h e f a c =
    ap (λ o. free? o s.heap >>= λ h. free? s.lastwp h >>= λ h. some (closed_at s h)) e
    ∙ bind_lem (free? path s.heap) h _ a
    ∙ ap (λ o. free? o h >>= λ h. some (closed_at s h)) f
    ∙ ap (λ o. freed_cell h q o >>= λ h. some (closed_at s h)) c

-- Where `cd` has set `lastwp`, a second `close_connection` frees that string again.
pub close_connection-close_connection :
    (s : Session) (current previous : Bytes)
    → Paired s current previous
    → (close_connection s >>= close_connection) ≡ none
unfolding close_connection
close_connection-close_connection s current previous r =
    bind_lem (close_connection s) s' close_connection closed.1 ∙ again
  where
    closed : (s' : Session) × (close_connection s ≡ some s') × Closed s s'
    closed = close_connection-Closed s current (some previous) r

    s' : Session
    s' = closed.0

    again : close_connection s' ≡ none
    again = faults_lem s' none r.q s'.heap closed.2.1 (closed.2.2 ∙ r.lastwp) refl (closed.2.0 r.q)
