-- ===== src/Mapper/Control.antt =====
-- The calls of common/src/mapper.cpp from other threads, each under the mutex: `set_profile`,
-- `set_layer`, `pause`, `resume`, `stop` and the queries.
use keybinder.Base.{
  ℕ, Bool, true, false, ltb, List, [], ◌∷◌, ◌++◌, Option, none, some, length, Result, ok, fail,
  nullopt, ◌>>=◌, or_fail, if◌then◌else◌,
}
use keybinder.QtText.{QtText}
use keybinder.Profile.{BasicTrigger, Bind, Layer, Profile}
use keybinder.Event.{InputEvent, KeyEventType}
use keybinder.Machine.{State, find, put}
use keybinder.Machine.Generate.{generate_states}
use keybinder.Mapper.{Environment, Mapper}
use keybinder.Mapper.Output.{set_layer_inner}

abbrev pub trigger_to_input : BasicTrigger → InputEvent
trigger_to_input (BasicTrigger.key_press code) =
    InputEvent.key (record { keycode = code; type = KeyEventType.press })
trigger_to_input (BasicTrigger.key_release code) =
    InputEvent.key (record { keycode = code; type = KeyEventType.release })
trigger_to_input (BasicTrigger.app_focused name) = InputEvent.app (record { app_name = name })

-- A second remapping of an event makes the profile invalid.
unfoldable pub add_basic :
    QtText
    → List (BasicTrigger × List Bind)
    → List (InputEvent × List Bind)
    → Option (List (InputEvent × List Bind))
unfolding find put
add_basic qt [] basic_map = some basic_map
add_basic qt ((trigger, binds) ∷ rest) basic_map =
    let added = add_basic qt rest (put qt (trigger_to_input trigger) binds basic_map) in
    elim (find qt (trigger_to_input trigger) basic_map) [ some old ↦ none | none ↦ added ]

pub record Tables : Type 0 where
  pub new_states : List (List State)
  pub new_basic_maps : List (List (InputEvent × List Bind))

-- The loop over the layers; `nullopt` is `return false`.
unfoldable pub build_tables : Environment → List Layer → Tables → Result Tables
unfolding add_basic generate_states
build_tables env [] t = ok t
build_tables env (layer ∷ rest) t = do
  basic_map ← or_fail (add_basic env.qt layer.basic_remappings []) nullopt
  machine ← generate_states env.qt env.memory layer
  build_tables env rest (record {
    new_states = t.new_states ++ machine ∷ [];
    new_basic_maps = t.new_basic_maps ++ basic_map ∷ [];
  })

-- The mapper after the call, and the value returned.
abbrev pub answer : Mapper → Result Mapper → Result (Mapper × Bool)
answer m (ok m') = ok (m', true)
answer m (fail nullopt) = ok (m, false)
answer m (fail e) = fail e

unfoldable pub install : Environment → Profile → Tables → Mapper → Result Mapper
unfolding set_layer_inner
install env p t m =
    set_layer_inner env p.default_layer
      (record m { profile = p; states = t.new_states; basic_maps = t.new_basic_maps })

unfoldable pub set_profile : Environment → Profile → Mapper → Result (Mapper × Bool)
unfolding build_tables install
set_profile env p m = answer m (do
  t ← build_tables env p.layers (record { new_states = []; new_basic_maps = [] })
  install env p t m)

unfoldable pub set_layer : Environment → ℕ → Mapper → Result (Mapper × Bool)
unfolding set_layer_inner
set_layer env new_layer m =
    if ltb new_layer (length m.states)
    then (do m' ← set_layer_inner env new_layer m; ok (m', true))
    else ok (m, false)

unfoldable pub pause : Mapper → Mapper
pause m = record m { paused = true; queued_events = []; current_timer = none }

unfoldable pub resume : Mapper → Mapper
resume m = record m { paused = false }

-- Closing the receiver is the channel's part.
unfoldable pub stop : Mapper → Mapper
stop m = record m { stopped = true }

unfoldable pub is_paused : Mapper → Bool
is_paused m = m.paused

unfoldable pub waiting_for_timer : Mapper → Bool
waiting_for_timer m = elim m.current_timer [
  | none ↦ false
  | some deadline ↦ elim m.queued_events [ [] ↦ true | q ∷ rest ↦ false ]
]

unfoldable pub processed_events : Mapper → ℕ
processed_events m = m.processed_events_count

-- The members' initial values.
abbrev pub initial : Profile → Mapper
initial p = record {
  profile = p;
  states = [];
  cur_layer_idx = 0;
  cur_state_idx = 0;
  processed_events_count = 0;
  basic_maps = [];
  current_timer = none;
  queued_events = [];
  stopped = false;
  paused = false;
  clock_reads = 0;
  sent = [];
  announced = [];
  counted = [];
}

-- The constructor: `set_profile`, whose answer is not read.
unfoldable pub new_mapper : Environment → Profile → Result Mapper
unfolding set_profile
new_mapper env p = do r ← set_profile env p (initial p); ok r.0
