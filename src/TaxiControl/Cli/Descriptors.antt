-- ===== src/TaxiControl/Cli/Descriptors.antt =====
-- The sockets of the drivers: which are open, and that no function closes one twice or loses one.
use eltex_systems.Base.{
  ℕ, ◌+◌, ◌≡◌, refl, Bool, true, false, List, [], ◌∷◌, ◌++◌, Option, none, some, arith,
  if◌then◌else◌, ◌==◌, All,
}
use eltex_systems.TaxiControl.Cli.{Entry, Effect, print, socketpair, send, close, dead, close_fd}

abbrev pub fd_is : ℕ → Option ℕ → ℕ
fd_is fd none = 0
fd_is fd (some e) = if e == fd then 1 else 0

-- How many entries hold the descriptor, and how often it is closed.
unfoldable pub held : ℕ → List Entry → ℕ
held fd [] = 0
held fd (d ∷ ds) = fd_is fd d.fd + held fd ds

unfoldable pub closed : ℕ → List Effect → ℕ
closed fd [] = 0
closed fd (print l ∷ es) = closed fd es
closed fd (send e m ∷ es) = closed fd es
closed fd (socketpair e ∷ es) = closed fd es
closed fd (close e ∷ es) = (if e == fd then 1 else 0) + closed fd es

-- How often it is opened.
unfoldable pub opened : ℕ → List Effect → ℕ
opened fd [] = 0
opened fd (print l ∷ es) = opened fd es
opened fd (send e m ∷ es) = opened fd es
opened fd (socketpair e ∷ es) = (if e == fd then 1 else 0) + opened fd es
opened fd (close e ∷ es) = opened fd es

abbrev pub is_open : Option ℕ → Bool
is_open none = false
is_open (some fd) = true

-- An entry is alive exactly while it has a descriptor.
abbrev pub IsConsistent : List Entry → Type 0
IsConsistent = All (λ d. d.alive ≡ is_open d.fd)

pub closed-append : (fd : ℕ) (a b : List Effect) → closed fd (a ++ b) ≡ closed fd a + closed fd b
unfolding closed
closed-append fd [] b = omega arith
closed-append fd (print l ∷ a) b = closed-append fd a b
closed-append fd (send e m ∷ a) b = closed-append fd a b
closed-append fd (socketpair e ∷ a) b = closed-append fd a b
closed-append fd (close e ∷ a) b = omega (arith, closed-append fd a b)

pub opened-append : (fd : ℕ) (a b : List Effect) → opened fd (a ++ b) ≡ opened fd a + opened fd b
unfolding opened
opened-append fd [] b = omega arith
opened-append fd (print l ∷ a) b = opened-append fd a b
opened-append fd (send e m ∷ a) b = opened-append fd a b
opened-append fd (socketpair e ∷ a) b = omega (arith, opened-append fd a b)
opened-append fd (close e ∷ a) b = opened-append fd a b

-- From `ds` to `r.0` with the effects `r.1`: the table stays consistent, and each descriptor that was
-- held or is opened is held afterwards or closed, as often.
pub record Balanced (ds : List Entry) (r : List Entry × List Effect) : Type 0 where
  pub consistent : IsConsistent ds → IsConsistent r.0
  pub balance : (fd : ℕ) → held fd r.0 + closed fd r.1 ≡ opened fd r.1 + held fd ds

-- The same for one entry.
pub record EntryBalanced (d : Entry) (r : Entry × List Effect) : Type 0 where
  pub consistent : d.alive ≡ is_open d.fd → r.0.alive ≡ is_open r.0.fd
  pub balance : (fd : ℕ) → fd_is fd r.0.fd + closed fd r.1 ≡ opened fd r.1 + fd_is fd d.fd

closed-close_fd : (fd : ℕ) (o : Option ℕ) → closed fd (close_fd o) ≡ fd_is fd o
unfolding closed
closed-close_fd fd none = refl
closed-close_fd fd (some e) = omega arith

pub opened-close_fd : (fd : ℕ) (o : Option ℕ) → opened fd (close_fd o) ≡ 0
unfolding opened
opened-close_fd fd none = refl
opened-close_fd fd (some e) = refl

pub dead-EntryBalanced : (d : Entry) → EntryBalanced d (dead d, close_fd d.fd)
dead-EntryBalanced d = record {
  consistent = λ _. refl;
  balance = λ fd. omega (arith, closed-close_fd fd d.fd, opened-close_fd fd d.fd);
}

pub keep-Balanced : (ds : List Entry) → Balanced ds (ds, [])
unfolding closed opened
keep-Balanced ds = record { consistent = λ h. h; balance = λ fd. omega arith }

pub cons-Balanced :
    (d : Entry) (ds : List Entry) (r : Entry × List Effect) (rs : List Entry × List Effect)
    → EntryBalanced d r
    → Balanced ds rs
    → Balanced (d ∷ ds) (r.0 ∷ rs.0, r.1 ++ rs.1)
unfolding held
cons-Balanced d ds r rs one many = record {
  consistent = λ h. (one.consistent h.0, many.consistent h.1);
  balance = λ fd. omega (
    arith,
    closed-append fd r.1 rs.1,
    opened-append fd r.1 rs.1,
    one.balance fd,
    many.balance fd,
  );
}

pub skip-Balanced :
    (d : Entry) (ds : List Entry) (rs : List Entry × List Effect)
    → Balanced ds rs
    → Balanced (d ∷ ds) (d ∷ rs.0, rs.1)
unfolding held
skip-Balanced d ds rs many = record {
  consistent = λ h. (h.0, many.consistent h.1);
  balance = λ fd. omega (arith, many.balance fd);
}

pub change-Balanced :
    (d : Entry) (ds : List Entry) (r : Entry × List Effect)
    → EntryBalanced d r
    → Balanced (d ∷ ds) (r.0 ∷ ds, r.1)
unfolding held
change-Balanced d ds r one = record {
  consistent = λ h. (one.consistent h.0, h.1);
  balance = λ fd. omega (arith, one.balance fd);
}

-- One after the other.
pub then-Balanced :
    (ds : List Entry) (r s : List Entry × List Effect)
    → Balanced ds r
    → Balanced r.0 s
    → Balanced ds (s.0, r.1 ++ s.1)
then-Balanced ds r s first second = record {
  consistent = λ h. second.consistent (first.consistent h);
  balance = λ fd. omega (
    arith,
    closed-append fd r.1 s.1,
    opened-append fd r.1 s.1,
    first.balance fd,
    second.balance fd,
  );
}
