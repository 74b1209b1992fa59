-- ===== src/Daemon/Linux/Released.antt =====
-- What the Linux daemon (linux/src/daemon.cpp) takes and gives back.
use keybinder.Base.{
  ℕ, ◌≡◌, refl, ap, ◌∙◌, String, Bool, true, false, not, ◌&&◌, ◌==◌, List, [], ◌∷◌, Option, none,
  some, All, ==_iff, if◌then◌else◌,
}
use keybinder.Daemon.Linux.Lifecycle.{
  Answers, Life, close_fd, setup_uinput_device, start, cleanup, constructed,
}

abbrev is_some : Option ℕ → Bool
is_some none = false
is_some (some n) = true

-- The keyboard is opened and grabbed.
abbrev pub grabs : Answers → Bool
grabs a = is_some a.keyboard && a.evdev && a.grab

-- The virtual keyboard is there.
abbrev pub has_virtual : Answers → Bool
has_virtual a = is_some a.uinput && a.dev_setup && a.dev_create

-- A descriptor that is not open.
abbrev pub IsFresh : ℕ → List ℕ → Type 0
IsFresh fd fds = All (λ k. (k == fd) ≡ false) fds

-- `open` gives descriptors that are not open.
abbrev pub FreshFds : Option ℕ → Option ℕ → List ℕ → Type 0
FreshFds (some k) (some u) fds = IsFresh k fds × IsFresh u (k ∷ fds)
FreshFds _ _ fds = Unit

close_fd-fresh : (fd : ℕ) (fds : List ℕ) → IsFresh fd fds → close_fd fd fds ≡ fds
unfolding close_fd
close_fd-fresh fd [] h = refl
close_fd-fresh fd (k ∷ fds) h =
    rw (h.0, close_fd) (ap (λ (l : List ℕ). k ∷ l) (close_fd-fresh fd fds h.1))

close_fd-own : (fd : ℕ) (fds : List ℕ) → IsFresh fd fds → close_fd fd (fd ∷ fds) ≡ fds
unfolding close_fd
close_fd-own fd fds h = rw ((==_iff fd fd).1 refl, close_fd) (close_fd-fresh fd fds h)

both_closed :
    (k u : ℕ) (fds : List ℕ)
    → IsFresh k fds × IsFresh u (k ∷ fds)
    → close_fd k (close_fd u (u ∷ k ∷ fds)) ≡ fds
both_closed k u fds h =
    ap (λ (l : List ℕ). close_fd k l) (close_fd-own u (k ∷ fds) h.1) ∙ close_fd-own k fds h.0

-- What `start` holds, and what `cleanup` leaves of it.
abbrev pub Outcome : List ℕ → Answers → Life → Type 0
Outcome fds a w =
    (w.is_running ≡ grabs a && has_virtual a)
    × (w.grabbed ≡ grabs a)
    × (w.virtual_keyboard ≡ grabs a && has_virtual a)
    × ((cleanup w).grabbed ≡ grabs a && not (has_virtual a))
    × ((cleanup w).virtual_keyboard ≡ false)
    × ((cleanup w).is_running ≡ false)
    × ((cleanup w).open_fds ≡ (if grabs a && has_virtual a then fds else w.open_fds))

module _ (value : String → ℕ) (fds : List ℕ) where
  outcome :
      (k : Option ℕ) (e g : Bool) (u : Option ℕ) (s c : Bool)
      → FreshFds k u fds
      → let a : Answers = record {
        keyboard = k;
        evdev = e;
        grab = g;
        uinput = u;
        dev_setup = s;
        dev_create = c;
      } in
        Outcome fds a (start value a (constructed fds))
  unfolding start setup_uinput_device cleanup
  outcome none e g u s c fresh = (refl, refl, refl, refl, refl, refl, refl)
  outcome (some k) false g u s c fresh = (refl, refl, refl, refl, refl, refl, refl)
  outcome (some k) true false u s c fresh = (refl, refl, refl, refl, refl, refl, refl)
  outcome (some k) true true none s c fresh = (refl, refl, refl, refl, refl, refl, refl)
  outcome (some k) true true (some u) false c fresh = (refl, refl, refl, refl, refl, refl, refl)
  outcome (some k) true true (some u) true false fresh = (refl, refl, refl, refl, refl, refl, refl)
  outcome (some k) true true (some u) true true fresh =
      (refl, refl, refl, refl, refl, refl, both_closed k u fds fresh)

  -- However the calls of the system end, if `open` gives descriptors that were not open: a daemon
  -- that is started runs exactly if the keyboard is opened and grabbed and the virtual keyboard is
  -- made. Then `cleanup` gives both back and closes both descriptors. But if the keyboard is grabbed and
  -- the virtual keyboard is not made, then the daemon does not run, and `cleanup` leaves the keyboard
  -- grabbed.
  pub start-Outcome :
      (a : Answers)
      → FreshFds a.keyboard a.uinput fds
      → Outcome fds a (start value a (constructed fds))
  start-Outcome a fresh = outcome a.keyboard a.evdev a.grab a.uinput a.dev_setup a.dev_create fresh
