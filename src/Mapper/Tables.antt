-- ===== src/Mapper/Tables.antt =====
-- The tables that `set_profile` (common/src/mapper.cpp) builds for a profile's layers.
use keybinder.Base.{
  ℕ, suc, ◌+◌, ◌<◌, ◌≡◌, sym, subst, List, [], ◌∷◌, ◌++◌, Option, none, some, length, length-append,
  All, All-append, IfOk, Result, ok, fail, nullopt, ◌>>=◌, or_fail, Bool-cases, Option-cases, inl,
  inr, arith,
}
use keybinder.QtText.{QtText}
use keybinder.Profile.{BasicTrigger, Bind, Layer, Profile, SequenceTrigger}
use keybinder.Event.{InputEvent, input_eq}
use keybinder.Machine.{State, find, put}
use keybinder.Machine.Generate.{generate_states}
use keybinder.Machine.WellFormed.{InRange}
use keybinder.Machine.Outputs.{StateAll, Allows}
use keybinder.Machine.Outputs.Generated.{generate_states-All}
use keybinder.Machine.Paced.{IsPaced, generate_states_total}
use keybinder.Mapper.{Environment}
use keybinder.Mapper.Control.{trigger_to_input, add_basic, Tables, build_tables}
use keybinder.Mapper.Valid.{BindFits, OutputFits, MachineFits, MapFits}

-- A layer of a profile with `n` layers: its binds switch to layers that exist, and no wait of its
-- sequences stands first or behind another wait.
pub record LayerFits (n : ℕ) (layer : Layer) : Type 0 where
  pub basic_fit : All (λ r. All (BindFits n) r.1) layer.basic_remappings
  pub sequences_fit : All (λ s. All (BindFits n) s.binds) layer.sequence_remappings
  pub sequences_paced : All (λ s. IsPaced s.sequence) layer.sequence_remappings

pub record ProfileFits (p : Profile) : Type 0 where
  pub default_lt : p.default_layer < length p.layers
  pub layers_fit : All (LayerFits (length p.layers)) p.layers

-- The value has `Q`, or the call answered `false`.
abbrev pub Decided {ℓ} : {A : Type ℓ} → (A → Type 0) → Result A → Type 0
Decided Q (ok a) = Q a
Decided Q (fail nullopt) = Unit
Decided Q (fail _) = ⊥

Decided-bind {ℓ κ} :
    {A : Type ℓ} {B : Type κ} (R : A → Type 0) (Q : B → Type 0) (m : Result A) (f : A → Result B)
    → Decided R m
    → ((a : A) → R a → Decided Q (f a))
    → Decided Q (m >>= f)
Decided-bind R Q (ok a) f h k = k a h
Decided-bind R Q (fail nullopt) f h k = tt
Decided-bind R Q (fail _) f h k = h

module _ (n : ℕ) where
  put-MapFits :
      (qt : QtText) (e : InputEvent) (binds : List Bind) (m : List (InputEvent × List Bind))
      → All (BindFits n) binds
      → MapFits n m
      → MapFits n (put qt e binds m)
  unfolding put
  put-MapFits qt e binds [] h a = (h, tt)
  put-MapFits qt e binds ((k, v) ∷ m) h a = elim (Bool-cases (input_eq qt k e)) [
    | inl same ↦ rw same (h, a.1)
    | inr other ↦ rw other (a.0, put-MapFits qt e binds m h a.1)
  ]

  abbrev MapOption : Option (List (InputEvent × List Bind)) → Type 0
  MapOption none = Unit
  MapOption (some m) = MapFits n m

  add_basic-MapFits :
      (qt : QtText) (rs : List (BasicTrigger × List Bind)) (m : List (InputEvent × List Bind))
      → All (λ r. All (BindFits n) r.1) rs
      → MapFits n m
      → MapOption (add_basic qt rs m)
  unfolding add_basic
  add_basic-MapFits qt [] m h a = a
  add_basic-MapFits qt ((t, binds) ∷ rest) m h a =
      elim (Option-cases (find qt (trigger_to_input t) m)) [
        | inl absent ↦
            rw (absent, MapOption)
              (add_basic-MapFits qt rest _ h.1 (put-MapFits qt (trigger_to_input t) binds m h.0 a))
        | inr (old, present) ↦ rw (present, MapOption) tt
      ]

  or_fail-Decided :
      (o : Option (List (InputEvent × List Bind)))
      → MapOption o
      → Decided (MapFits n) (or_fail o nullopt)
  or_fail-Decided none h = tt
  or_fail-Decided (some m) h = h

  outputs_allowed :
      (s : SequenceTrigger) → All (BindFits n) s.binds → Allows (OutputFits n) s.behavior s.binds
  outputs_allowed s h = record { translated = λ o. tt; again = λ e x. tt; bound = h }

  All-allowed :
      (ss : List SequenceTrigger)
      → All (λ s. All (BindFits n) s.binds) ss
      → All (λ s. Allows (OutputFits n) s.behavior s.binds) ss
  All-allowed [] h = tt
  All-allowed (s ∷ ss) h = (outputs_allowed s h.0, All-allowed ss h.1)

  module _ (env : Environment) (range : InRange env.memory) where
    machine-Fits :
        (layer : Layer)
        → LayerFits n layer
        → Decided (MachineFits n) (generate_states env.qt env.memory layer)
    machine-Fits layer h =
        elim (generate_states_total env.qt env.memory layer range h.sequences_paced) [
          | inl (machine, e, wf) ↦ subst (Decided (MachineFits n)) (sym e) (record {
            well_formed = wf;
            outputs_fit = subst (IfOk (All (StateAll (OutputFits n)))) e (
                generate_states-All (OutputFits n) env.qt env.memory layer tt
                  (All-allowed layer.sequence_remappings h.sequences_fit));
          })
          | inr e ↦ subst (Decided (MachineFits n)) (sym e) tt
        ]

    -- Tables for `k` layers.
    pub record TablesFit (k : ℕ) (t : Tables) : Type 0 where
      pub states_count : length t.new_states ≡ k
      pub maps_count : length t.new_basic_maps ≡ k
      pub states_fit : All (MachineFits n) t.new_states
      pub maps_fit : All (MapFits n) t.new_basic_maps

    appended : Tables → List State → List (InputEvent × List Bind) → Tables
    appended t machine basic_map = record {
      new_states = t.new_states ++ machine ∷ [];
      new_basic_maps = t.new_basic_maps ++ basic_map ∷ [];
    }

    appended-TablesFit :
        (k : ℕ) (t : Tables) (machine : List State) (basic_map : List (InputEvent × List Bind))
        → TablesFit k t
        → MachineFits n machine
        → MapFits n basic_map
        → TablesFit (k + 1) (appended t machine basic_map)
    unfolding appended
    appended-TablesFit k t machine basic_map f h g = record {
      states_count = omega (arith, length-append t.new_states (machine ∷ []), f.states_count);
      maps_count = omega (arith, length-append t.new_basic_maps (basic_map ∷ []), f.maps_count);
      states_fit = All-append (MachineFits n) t.new_states _ f.states_fit (h, tt);
      maps_fit = All-append (MapFits n) t.new_basic_maps _ f.maps_fit (g, tt);
    }

    pub build_tables-Fit :
        (layers : List Layer) (k : ℕ) (t : Tables)
        → All (LayerFits n) layers
        → TablesFit k t
        → Decided (TablesFit (k + length layers)) (build_tables env layers t)
    unfolding build_tables appended
    build_tables-Fit [] k t h f = record {
      states_count = omega (arith, f.states_count);
      maps_count = omega (arith, f.maps_count);
      states_fit = f.states_fit;
      maps_fit = f.maps_fit;
    }
    build_tables-Fit (layer ∷ rest) k t h f =
        Decided-bind (MapFits n) (TablesFit (k + suc (length rest)))
          (or_fail (add_basic env.qt layer.basic_remappings []) nullopt) _
          (or_fail-Decided _ (add_basic-MapFits env.qt layer.basic_remappings [] h.0.basic_fit tt))
          (λ basic_map fits_map.
            Decided-bind (MachineFits n) (TablesFit (k + suc (length rest)))
              (generate_states env.qt env.memory layer) _ (machine-Fits layer h.0)
              (λ machine fits.
                subst
                  (λ j.
                    Decided (TablesFit j) (build_tables env rest (appended t machine basic_map)))
                  (omega arith)
                  (build_tables-Fit rest (k + 1) (appended t machine basic_map) h.1
                    (appended-TablesFit k t machine basic_map f fits fits_map))))
