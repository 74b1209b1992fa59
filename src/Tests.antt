-- ===== src/Tests.antt =====
-- Test data: a profile with a basic remapping and two sequences, a hand-written machine, and what
-- stands outside.
pub mod Replay
pub mod Witnesses
pub mod Channels
pub mod Typing
pub mod Programs
pub mod Daemons
pub mod Devices
pub mod Keyboards
use keybinder.Base.{
  leb, ◌^◌, if◌then◌else◌, ℕ, ◌+◌, ◌<◌, ◌≤◌, ◌≡◌, refl, Bool, true, false, not, List, [], ◌∷◌,
  Option, none, some, length, All, arith,
}
use keybinder.QtText.{exact_text}
use keybinder.ReadProfile.Access.{Double}
use keybinder.ReadProfile.Print.{Doubles, ExactProfile}
use keybinder.KeyCode.{KeyCode, code_eq}
use keybinder.Profile.{
  SequenceBehavior, BasicTrigger, AdvancedTrigger, Bind, SequenceTrigger, Layer, Profile,
}
use keybinder.Event.{InputEvent, KeyEvent, KeyEventType, OutputEvent}
use keybinder.Machine.{StateMachineOutputEvent, Transition, State}
use keybinder.Machine.Build.{Memory}
use keybinder.Machine.WellFormed.{IsWellFormed, StateOk, InRange}
use keybinder.Machine.Outputs.{StateAll}
use keybinder.Mapper.{Environment, Mapper}
use keybinder.Mapper.Delivery.Order.{stable}
use keybinder.Mapper.Valid.{MachineFits, OutputFits, IsValid}
use keybinder.Mapper.Quiet.{NoReplay}
use keybinder.Mapper.Tables.{LayerFits, ProfileFits}

abbrev pub zero_memory : Memory
zero_memory = record { next_state_idx = λ xs. 0; fallback_state = λ xs. 0 }

pub zero_memory-InRange : InRange zero_memory
zero_memory-InRange = record { next_lt = λ xs h. h; fallback_le = λ xs. omega arith }

-- Numbers that are not exact are out of range here.
abbrev of_number : ℕ → Double
of_number n = if leb n (2 ^ 53) then Double.whole n else Double.outside 0

pub of_number-exact : (n : ℕ) → n ≤ 2 ^ 53 → of_number n ≡ Double.whole n
of_number-exact n h = ground (arith, h)

abbrev pub as_doubles : Doubles
as_doubles = record { of = of_number; exact = of_number-exact }

-- A daemon that cannot send F13.
abbrev pub all_but_f13 : OutputEvent → Bool
all_but_f13 (OutputEvent.key e) = not (code_eq e.keycode KeyCode.f13)
all_but_f13 (OutputEvent.script s) = true

abbrev pub demo_env : Environment
demo_env = record {
  qt = exact_text;
  clock = λ reads. 100 + reads;
  has_callback = true;
  partition = stable;
  memory = zero_memory;
  can_send = all_but_f13;
}

abbrev pub pressed : KeyCode → InputEvent
pressed code = InputEvent.key (record { keycode = code; type = KeyEventType.press })

abbrev pub sent_press : KeyCode → OutputEvent
sent_press code = OutputEvent.key (record { keycode = code; type = KeyEventType.press })

-- Press A, within half a second press B.
abbrev pub quick_ab : SequenceTrigger
quick_ab = record {
  behavior = SequenceBehavior.default;
  sequence =
      AdvancedTrigger.key_press KeyCode.key_a
      ∷ AdvancedTrigger.maximum_wait 500
      ∷ AdvancedTrigger.key_press KeyCode.key_b
      ∷ [];
  binds = Bind.press_key KeyCode.key_c ∷ Bind.wait 20 ∷ Bind.release_key KeyCode.key_c ∷ [];
}

abbrev pub wait_first : SequenceTrigger
wait_first = record {
  behavior = SequenceBehavior.default;
  sequence = AdvancedTrigger.minimum_wait 5 ∷ AdvancedTrigger.key_press KeyCode.key_b ∷ [];
  binds = [];
}

abbrev pub demo_layer : Layer
demo_layer = record {
  layer_name = "main";
  basic_remappings = (BasicTrigger.key_press KeyCode.key_x, Bind.press_key KeyCode.key_y ∷ []) ∷ [];
  sequence_remappings = quick_ab ∷ [];
}

abbrev pub waiting_layer : Layer
waiting_layer = record {
  layer_name = "waiting";
  basic_remappings = [];
  sequence_remappings = wait_first ∷ quick_ab ∷ [];
}

abbrev pub demo_profile : Profile
demo_profile = record { name = "demo"; layers = demo_layer ∷ []; default_layer = 0 }

pub demo_profile-Exact : ExactProfile demo_profile
demo_profile-Exact = (
  omega arith,
  ((((tt, tt), tt), (((tt, (omega arith, (tt, tt))), (tt, (omega arith, (tt, tt)))), tt)), tt),
)

demo_layer-Fits : LayerFits 1 demo_layer
demo_layer-Fits = record {
  basic_fit = ((tt, tt), tt);
  sequences_fit = ((tt, (tt, (tt, tt))), tt);
  sequences_paced = (((λ h. h), (λ h. h)), tt);
}

pub demo_profile-Fits : ProfileFits demo_profile
demo_profile-Fits = record { default_lt = omega arith; layers_fit = (demo_layer-Fits, tt) }

-- Home, which puts out each event's basic translation, and a state behind key A.
abbrev pub home : Transition
home = record {
  timer_ms = none;
  outputs = StateMachineOutputEvent.basic_translation none ∷ [];
  new_state = 0;
}

abbrev pub demo_machine : List State
demo_machine =
    record {
      edges =
          (pressed KeyCode.key_a, record { timer_ms = some 500; outputs = []; new_state = 1 }) ∷ [];
      fallback_transition = home;
      timer_transition = none;
    }
    ∷ record { edges = []; fallback_transition = home; timer_transition = some home }
    ∷ []

abbrev pub demo_mapper : Mapper
demo_mapper = record {
  profile = demo_profile;
  states = demo_machine ∷ [];
  cur_layer_idx = 0;
  cur_state_idx = 1;
  processed_events_count = 0;
  basic_maps = ((pressed KeyCode.key_x, Bind.press_key KeyCode.key_y ∷ []) ∷ []) ∷ [];
  current_timer = some 50;
  queued_events = (300, sent_press KeyCode.key_c) ∷ (7, sent_press KeyCode.key_d) ∷ [];
  stopped = false;
  paused = false;
  clock_reads = 0;
  sent = [];
  announced = [];
  counted = [];
}

demo_machine-Fits : MachineFits 1 demo_machine
demo_machine-Fits = record {
  well_formed = record {
    has_home = omega arith;
    states_ok = (
      record { edges_ok = (omega arith, tt); fallback_ok = omega arith; timer_ok = tt },
      (record { edges_ok = tt; fallback_ok = omega arith; timer_ok = omega arith }, tt),
    );
  };
  outputs_fit = (
    record { edges_all = (tt, tt); fallback_all = (tt, tt); timer_all = tt },
    (record { edges_all = tt; fallback_all = (tt, tt); timer_all = (tt, tt) }, tt),
  );
}

pub demo_mapper-IsValid : IsValid 1 demo_mapper
demo_mapper-IsValid = record {
  count = refl;
  maps_count = refl;
  layers_count = refl;
  layer_lt = omega arith;
  state_in = omega arith;
  machines_fit = (demo_machine-Fits, tt);
  maps_fit = (((tt, tt), tt), tt);
}

pub demo_mapper-NoReplay : NoReplay demo_mapper
demo_mapper-NoReplay = (
  (
    record { edges_all = (tt, tt); fallback_all = (tt, tt); timer_all = tt },
    (record { edges_all = tt; fallback_all = (tt, tt); timer_all = (tt, tt) }, tt),
  ),
  tt,
)

abbrev pub capture_layer : Layer
capture_layer = record {
  layer_name = "capture";
  basic_remappings = [];
  sequence_remappings = (record quick_ab { behavior = SequenceBehavior.capture }) ∷ [];
}
