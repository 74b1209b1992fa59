-- ===== src/Daemon/Linux/Remembered.antt =====
-- The keyboard that the constructor of the Linux daemon (linux/src/daemon.cpp) finds, and the next one.
use keybinder.Base.{
  ℕ, ◌≡◌, refl, subst, String, str_eq, Bool, true, false, List, Option, none, some, ok, IfOk,
  IfOk-bind, IfOk-if, IfOk-any,
}
use keybinder.Devices.{LineText, ConfigFile, retrieve_eventx, record_eventx, detect_keyboard}
use keybinder.Devices.Config.{Recorded, record_eventx-Recorded}
use keybinder.Devices.Detection.{Surroundings, detect_keyboard_fallback}
use keybinder.Daemon.Linux.Lifecycle.{construct}

module _ (text : LineText) where
  Recorded-reads :
      (path : String) (config : ConfigFile) (r : ConfigFile × Bool)
      → Recorded text path config r
      → r.1 ≡ true
      → retrieve_eventx text true r.0 ≡ path
  Recorded-reads path config r (Recorded.created lines h) e = h
  Recorded-reads path config r (Recorded.updated before after h k) e = h
  Recorded-reads path config r (Recorded.failed c) e = absurd (cc e)

  record_eventx-answers :
      (path : String) (config : ConfigFile) → (record_eventx text true true path config).1 ≡ true
  unfolding record_eventx
  record_eventx-answers path none = refl
  record_eventx-answers path (some lines) = refl

  -- The file reads back as the path.
  abbrev Reads : ConfigFile × String → Type 0
  Reads r = retrieve_eventx text true r.0 ≡ r.1

  construct-Reads :
      (fuel : ℕ) (candidates : Option (List String)) (env : Surroundings) (config : ConfigFile)
      → env.can_read ≡ true
      → env.can_write ≡ true
      → IfOk Reads (construct text fuel candidates env config)
  unfolding construct
  construct-Reads fuel candidates env config reads writes =
      IfOk-if Reads (str_eq (retrieve_eventx text env.can_read config) "") _ _
        (λ absent.
          IfOk-bind (λ p. Unit {0}) Reads
            (detect_keyboard env.device candidates (detect_keyboard_fallback text fuel env config)
              config)
            _
            (IfOk-any (
              detect_keyboard env.device candidates (detect_keyboard_fallback text fuel env config)
                config))
            (λ p u.
              rw (reads, writes)
                (Recorded-reads p.1 p.0 _ (record_eventx-Recorded text true true p.1 p.0)
                  (record_eventx-answers p.1 p.0))))
        (λ present. rw reads refl)

  reads_again :
      (fuel : ℕ) (candidates : Option (List String)) (env : Surroundings) (config : ConfigFile)
      (path : String)
      → env.can_read ≡ true
      → retrieve_eventx text true config ≡ path
      → str_eq path "" ≡ false
      → construct text fuel candidates env config ≡ ok (config, path)
  unfolding construct
  reads_again fuel candidates env config path reads found named = rw (reads, found, named) refl

  -- If the daemon is constructed with some keyboard, and the configuration file could be read and
  -- written, then a daemon that is constructed later with the file, which can be read, has the same
  -- keyboard and leaves the file as it is, whatever devices are there and whatever is pressed.
  pub construct_remembers :
      (fuel fuel' : ℕ) (candidates candidates' : Option (List String)) (env env' : Surroundings)
      (config config' : ConfigFile) (path : String)
      → env.can_read ≡ true
      → env.can_write ≡ true
      → env'.can_read ≡ true
      → construct text fuel candidates env config ≡ ok (config', path)
      → str_eq path "" ≡ false
      → construct text fuel' candidates' env' config' ≡ ok (config', path)
  construct_remembers fuel fuel' candidates candidates' env env' config config' path reads writes
        reads' made named =
      reads_again fuel' candidates' env' config' path reads'
        (subst (IfOk Reads) made (construct-Reads fuel candidates env config reads writes)) named
