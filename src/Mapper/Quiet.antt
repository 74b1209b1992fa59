-- ===== src/Mapper/Quiet.antt =====
-- Outputs that process no event again (common/src/mapper.cpp): what a transition with such outputs
-- leaves to do.
use keybinder.Base.{
  ℕ, ◌≡◌, refl, Bool, true, false, List, [], ◌∷◌, Option, none, some, get_elem?, All, All-get_elem?,
  Result, ok, fail, too_deep, throws, index_assert, or_fail, at, ◌>>=◌, Option-cases, inl, inr,
  if◌then◌else◌,
}
use keybinder.Profile.{Bind, Layer}
use keybinder.Event.{InputEvent}
use keybinder.Machine.{StateMachineOutputEvent, find}
use keybinder.Machine.Outputs.{StateAll}
use keybinder.Mapper.{Environment, Mapper}
use keybinder.Mapper.Output.{set_layer_inner, queue_output, queue_bind, queue_from, queue_binds}
use keybinder.Mapper.Process.{or_previous, pass_through, translate, emit, emit_all}

-- An output that processes no event again.
abbrev pub IsQuiet : StateMachineOutputEvent → Type 0
IsQuiet (StateMachineOutputEvent.process_input e) = ⊥
IsQuiet _ = Unit

abbrev pub NoReplay : Mapper → Type 0
NoReplay m = All (λ machine. All (StateAll IsQuiet) machine) m.states

-- A value with `Q`, or an exception: enough fuel in any case.
abbrev pub Shallow {ℓ} : {A : Type ℓ} → (A → Type 0) → Result A → Type 0
Shallow Q (ok a) = Q a
Shallow Q (fail too_deep) = ⊥
Shallow Q (fail _) = Unit

pub Shallow-bind {ℓ κ} :
    {A : Type ℓ} {B : Type κ} (R : A → Type 0) (Q : B → Type 0) (m : Result A) (f : A → Result B)
    → Shallow R m
    → ((a : A) → R a → Shallow Q (f a))
    → Shallow Q (m >>= f)
Shallow-bind R Q (ok a) f h k = k a h
Shallow-bind R Q (fail too_deep) f h k = h
Shallow-bind R Q (fail _) f h k = tt

pub Shallow-if :
    (c : Bool) (a b : Result Mapper)
    → Shallow NoReplay a
    → Shallow NoReplay b
    → Shallow NoReplay (if c then a else b)
Shallow-if true a b h k = h
Shallow-if false a b h k = k

pub at-Shallow {ℓ} :
    {A : Type ℓ} (P : A → Type 0) (xs : List A) (i : ℕ) → All P xs → Shallow P (at xs i)
at-Shallow P xs i h = elim (Option-cases (get_elem? xs i)) [
  | inl e ↦ rw e tt
  | inr (a, e) ↦ rw e (All-get_elem? P xs i e h)
]

Any-at {ℓ} : {A : Type ℓ} (xs : List A) (i : ℕ) → Shallow (λ a. Unit {0}) (at xs i)
Any-at xs i = elim (Option-cases (get_elem? xs i)) [ inl e ↦ rw e tt | inr (a, e) ↦ rw e tt ]

-- The outputs leave nothing to process again.
abbrev pub Done : List InputEvent → Mapper × List InputEvent → Type 0
Done redo p = NoReplay p.0 × (p.1 ≡ redo)

module _ (env : Environment) where
  announce :
      (o : Option Layer) (f : Layer → Mapper)
      → ((l : Layer) → NoReplay (f l))
      → Shallow NoReplay (do l ← or_fail o (throws index_assert); ok (f l))
  announce none f h = tt
  announce (some l) f h = h l

  set_layer_inner-Shallow :
      (l : ℕ) (m : Mapper) → NoReplay m → Shallow NoReplay (set_layer_inner env l m)
  unfolding set_layer_inner
  set_layer_inner-Shallow l m h =
      Shallow-if env.has_callback _ _ (announce (get_elem? m.profile.layers l) _ (λ layer. h)) h

  queue_bind-Shallow :
      (b : Bind) (d : ℕ) (m : Mapper)
      → NoReplay m
      → Shallow (λ p. NoReplay p.1) (queue_bind env b d m)
  unfolding queue_bind queue_output
  queue_bind-Shallow (Bind.press_key code) d m h = h
  queue_bind-Shallow (Bind.release_key code) d m h = h
  queue_bind-Shallow (Bind.swap_layer l) d m h =
      Shallow-bind NoReplay (λ p. NoReplay p.1) (set_layer_inner env l m) _
        (set_layer_inner-Shallow l m h) (λ m' k. k)
  queue_bind-Shallow (Bind.wait ms) d m h = h
  queue_bind-Shallow (Bind.run_script s) d m h = h

  queue_from-Shallow :
      (bs : List Bind) (d : ℕ) (m : Mapper) → NoReplay m → Shallow NoReplay (queue_from env bs d m)
  unfolding queue_from
  queue_from-Shallow [] d m h = h
  queue_from-Shallow (b ∷ rest) d m h =
      Shallow-bind (λ p. NoReplay p.1) NoReplay (queue_bind env b d m) _
        (queue_bind-Shallow b d m h) (λ p k. queue_from-Shallow rest p.0 p.1 k)

  queue_binds-Shallow :
      (bs : List Bind) (m : Mapper) → NoReplay m → Shallow NoReplay (queue_binds env bs m)
  unfolding queue_binds
  queue_binds-Shallow bs m h = queue_from-Shallow bs 0 m h

  pass_through-NoReplay :
      (e : InputEvent) (m : Mapper) → NoReplay m → NoReplay (pass_through env e m)
  unfolding pass_through queue_output
  pass_through-NoReplay (InputEvent.key e) m h = h
  pass_through-NoReplay (InputEvent.app e) m h = h

  translate-Shallow :
      (e : InputEvent) (m : Mapper) → NoReplay m → Shallow NoReplay (translate env e m)
  unfolding translate
  translate-Shallow e m h =
      Shallow-bind (λ x. Unit {0}) NoReplay (at m.basic_maps m.cur_layer_idx) _
        (Any-at m.basic_maps m.cur_layer_idx)
        (λ basic_map x. elim (Option-cases (find env.qt e basic_map)) [
          | inl absent ↦ rw absent (pass_through-NoReplay e m h)
          | inr (bs, present) ↦ rw present (queue_binds-Shallow bs m h)
        ])

  emit-Shallow :
      (prev_event : Option InputEvent) (o : StateMachineOutputEvent) (m : Mapper)
      (redo : List InputEvent)
      → IsQuiet o
      → NoReplay m
      → Shallow (Done redo) (emit env prev_event o m redo)
  unfolding emit
  emit-Shallow prev_event (StateMachineOutputEvent.process_input e) m redo q h = absurd q
  emit-Shallow prev_event (StateMachineOutputEvent.basic_translation e) m redo q h =
      elim (Option-cases (or_previous e prev_event)) [
        | inl absent ↦ rw (absent, Shallow) (h, refl)
        | inr (x, present) ↦
            rw (present, Shallow)
              (Shallow-bind NoReplay (Done redo) (translate env x m) _ (translate-Shallow x m h)
                (λ m' k. (k, refl)))
      ]
  emit-Shallow prev_event (StateMachineOutputEvent.bind b) m redo q h =
      Shallow-bind NoReplay (Done redo) (queue_binds env (b ∷ []) m) _
        (queue_binds-Shallow (b ∷ []) m h) (λ m' k. (k, refl))

  pub emit_all-Shallow :
      (prev_event : Option InputEvent) (os : List StateMachineOutputEvent) (m : Mapper)
      (redo : List InputEvent)
      → All IsQuiet os
      → NoReplay m
      → Shallow (Done redo) (emit_all env prev_event os m redo)
  unfolding emit_all
  emit_all-Shallow prev_event [] m redo q h = (h, refl)
  emit_all-Shallow prev_event (o ∷ rest) m redo q h =
      Shallow-bind (Done redo) (Done redo) (emit env prev_event o m redo) _
        (emit-Shallow prev_event o m redo q.0 h)
        (λ p d. rw d.1 (emit_all-Shallow prev_event rest p.0 redo q.1 d.0))
