-- ===== src/Session/Ownership.antt =====
-- The strings that a session owns, each at an address of its own.
use cadaver.Common.{
  ℕ, ◌<◌, ◌≤◌, ◌∙◌, ◌≡◌, ◌≢◌, refl, true, Option, none, some, arith, ◌==◌, if◌then◌else◌,
}
use cadaver.Common.Text.{Bytes}
use cadaver.Session.{Heap, put, free, Session, with_heap}

-- The session is at `current`, with no previous collection, and owns one string.
pub record Alone (s : Session) (current : Bytes) : Type 0 where
  pub p : ℕ
  pub path : s.path ≡ some p
  pub lastwp : s.lastwp ≡ none
  pub connected : s.connected ≡ true
  pub below : p < s.heap.next
  pub cells : (a : ℕ) → s.heap.cell a ≡ (if a == p then some current else none)

-- The session is at `current` and came from `previous`, and owns these two strings.
pub record Paired (s : Session) (current previous : Bytes) : Type 0 where
  pub p : ℕ
  pub q : ℕ
  pub path : s.path ≡ some p
  pub lastwp : s.lastwp ≡ some q
  pub connected : s.connected ≡ true
  pub distinct : p ≢ q
  pub p_below : p < s.heap.next
  pub q_below : q < s.heap.next
  pub cells :
      (a : ℕ)
      → s.heap.cell a ≡ (if a == p then some current else if a == q then some previous else none)

abbrev pub Represents : Session → Bytes → Option Bytes → Type 0
Represents s current none = Alone s current
Represents s current (some previous) = Paired s current previous

pub free_lem : (p : ℕ) (h : Heap) (v : Bytes) → h.cell p ≡ some v → free p h ≡ some (put h p none)
free_lem p h v e = rw e refl

-- The same strings on another heap.
pub same_cells :
    (s : Session) (h : Heap) (current : Bytes) (previous : Option Bytes)
    → s.heap.next ≤ h.next
    → ((a : ℕ) → h.cell a ≡ s.heap.cell a)
    → Represents s current previous
    → Represents (with_heap s h) current previous
same_cells s h current none n e r = record {
  p = r.p;
  path = r.path;
  lastwp = r.lastwp;
  connected = r.connected;
  below = omega (arith, n, r.below);
  cells = λ a. e a ∙ r.cells a;
}
same_cells s h current (some previous) n e r = record {
  p = r.p;
  q = r.q;
  path = r.path;
  lastwp = r.lastwp;
  connected = r.connected;
  distinct = r.distinct;
  p_below = omega (arith, n, r.p_below);
  q_below = omega (arith, n, r.q_below);
  cells = λ a. e a ∙ r.cells a;
}

-- Nothing lies at an address that has not been given out.
pub next_lem :
    (s : Session) (current : Bytes) (previous : Option Bytes)
    → Represents s current previous
    → s.heap.cell s.heap.next ≡ none
next_lem s current none r = ground (arith, r.cells s.heap.next, r.below)
next_lem s current (some previous) r = ground (arith, r.cells s.heap.next, r.p_below, r.q_below)
