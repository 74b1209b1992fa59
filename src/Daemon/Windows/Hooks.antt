-- ===== src/Daemon/Windows/Hooks.antt =====
-- The two hooks of win/src/daemon.cpp: its constructor, the end of `start`, and `cleanup`.
use keybinder.Base.{◌≡◌, refl, Bool, true, false, if◌then◌else◌}

-- `kbd` and `event_hook`, and what the system has installed.
pub record Hooks : Type 0 where
  pub kbd : Bool
  pub event_hook : Bool
  pub kbd_installed : Bool
  pub event_installed : Bool

-- The arguments say whether SetWindowsHookEx and SetWinEventHook succeed; the second is not called
-- when the first fails.
unfoldable pub construct : Bool → Bool → Hooks
construct false event_ok = record {
  kbd = false;
  event_hook = false;
  kbd_installed = false;
  event_installed = false;
}
construct true event_ok = record {
  kbd = true;
  event_hook = event_ok;
  kbd_installed = true;
  event_installed = event_ok;
}

abbrev unhook_kbd : Hooks → Hooks
unhook_kbd h = if h.kbd then record h { kbd = false; kbd_installed = false } else h

abbrev unhook_event : Hooks → Hooks
unhook_event h =
    if h.event_hook then record h { event_hook = false; event_installed = false } else h

unfoldable pub cleanup : Hooks → Hooks
cleanup h = unhook_event (unhook_kbd h)

-- However the installation went, `cleanup`, which `start` ends with, leaves no hook installed, and a
-- second call of it changes nothing.
pub unhooked :
    (kbd_ok event_ok : Bool)
    → let h = cleanup (construct kbd_ok event_ok) in
      (h.kbd_installed ≡ false) × (h.event_installed ≡ false) × (cleanup h ≡ h)
unfolding cleanup construct
unhooked false event_ok = (refl, refl, refl)
unhooked true false = (refl, refl, refl)
unhooked true true = (refl, refl, refl)
