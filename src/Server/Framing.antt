-- ===== src/Server/Framing.antt =====
-- How `read_data` (common/src/local_server.cpp) cuts the stream of a client into messages: the same
-- messages, however the stream is cut into chunks.
use mathlib.Core.List.{append_assoc, append-nil}
use keybinder.Base.{
  ℕ, zero, suc, ◌==◌, ◌≡◌, ◌<◌, refl, sym, ap, ◌∙◌, arith, Bool, true, false, List, [], ◌∷◌, ◌++◌,
  Option, none, some, length, Result, ok, fail, ◌>>=◌, if◌then◌else◌, Bool-cases, inl, inr, IfOk,
  IfOk-bind, IfOk-any, bind-cong, Option-cases,
}
use keybinder.Mapper.{Environment}
use keybinder.Server.{
  Outside, Shared, handle_line, behind, next_line, Connection, read_lines, read_data,
}

-- The reference: byte after byte, with a line that is handled at its newline.
abbrev pub take_byte : Bool → (List ℕ → Shared → Result Shared) → ℕ → Connection → Result Connection
take_byte true handle b c = do s ← handle c.buffer c.shared; ok (record { shared = s; buffer = [] })
take_byte false handle b c = ok (record c { buffer = c.buffer ++ b ∷ [] })

unfoldable pub bytewise :
    (List ℕ → Shared → Result Shared) → List ℕ → Connection → Result Connection
bytewise handle [] c = ok c
bytewise handle (b ∷ bytes) c = do c' ← take_byte (b == 10) handle b c; bytewise handle bytes c'

>>=-assoc :
    {A B C : Type 0} (m : Result A) (f : A → Result B) (g : B → Result C)
    → ((m >>= f) >>= g) ≡ (m >>= (λ a. f a >>= g))
>>=-assoc (ok a) f g = refl
>>=-assoc (fail e) f g = refl

behind-none : (b : ℕ) (o : Option (List ℕ × List ℕ)) → behind b o ≡ none → o ≡ none
behind-none b none h = refl
behind-none b (some (line, rest)) h = absurd (cc h)

behind-some :
    (b : ℕ) (o : Option (List ℕ × List ℕ)) (line rest : List ℕ)
    → behind b o ≡ some (line, rest)
    → (l : List ℕ) × (o ≡ some (l, rest)) × (line ≡ b ∷ l)
behind-some b none line rest h = absurd (cc h)
behind-some b (some (l, r)) line rest h = (l, cc h, cc h)

pair-inj :
    (xs ys line rest : List ℕ)
    → ◌≡◌ {A = Option (List ℕ × List ℕ)} (some (xs, ys)) (some (line, rest))
    → (xs ≡ line) × (ys ≡ rest)
pair-inj xs ys line rest h = (cc h, cc h)

module _ (handle : List ℕ → Shared → Result Shared) where
  bytewise-append :
      (xs ys : List ℕ) (c : Connection)
      → bytewise handle (xs ++ ys) c ≡ (bytewise handle xs c >>= bytewise handle ys)
  unfolding bytewise
  bytewise-append [] ys c = refl
  bytewise-append (b ∷ xs) ys c =
      ap (λ (f : Connection → Result Connection). take_byte (b == 10) handle b c >>= f)
        (λ i c'. bytewise-append xs ys c' i)
      ∙ sym (>>=-assoc (take_byte (b == 10) handle b c) (bytewise handle xs) (bytewise handle ys))

  bytewise-none :
      (bytes : List ℕ) (c : Connection)
      → next_line bytes ≡ none
      → bytewise handle bytes c ≡ ok (record c { buffer = c.buffer ++ bytes })
  unfolding bytewise next_line
  bytewise-none [] c h = λ i. ok (record c { buffer = sym (append-nil c.buffer) i })
  bytewise-none (b ∷ bytes) c h = elim (Bool-cases (b == 10)) [
    | inl newline ↦ absurd (
        cc (
          h,
          ap (λ (t : Bool). if t then some ([], bytes) else behind b (next_line bytes)) newline,
        ))
    | inr other ↦ rw other (
        bytewise-none bytes (record c { buffer = c.buffer ++ b ∷ [] })
          (behind-none b _ (rw other at h))
        ∙ (λ i. ok (record c { buffer = append_assoc c.buffer (b ∷ []) bytes i })))
  ]

  bytewise-line :
      (bytes line rest : List ℕ) (c : Connection)
      → next_line bytes ≡ some (line, rest)
      → (bytewise handle bytes c ≡ (do
        s ← handle (c.buffer ++ line) c.shared
        bytewise handle rest (record { shared = s; buffer = [] })))
        × (length rest < length bytes)
  unfolding bytewise next_line
  bytewise-line [] line rest c h = absurd (cc h)
  bytewise-line (b ∷ bytes) line rest c h = elim (Bool-cases (b == 10)) [
    | inl newline ↦
        let (at_once, left) = pair-inj [] bytes line rest (rw newline at h) in
        rw (newline, sym at_once, sym left, append-nil c.buffer)
          (
            >>=-assoc (handle c.buffer c.shared) (λ s. ok (record { shared = s; buffer = [] }))
                (bytewise handle bytes),
            omega arith,
          )
    | inr other ↦
        let (l, e, cut) = behind-some b (next_line bytes) line rest (rw other at h) in
        let (same, shorter) =
          bytewise-line bytes l rest (record c { buffer = c.buffer ++ b ∷ [] }) e in
        rw (other, cut)
          (
            same
                ∙ ap
                    (λ (x : List ℕ). do
                      s ← handle x c.shared
                      bytewise handle rest (record { shared = s; buffer = [] }))
                    (append_assoc c.buffer (b ∷ []) l),
            omega (arith, shorter),
          )
  ]

-- No line is complete yet.
abbrev pub Waits : Connection → Type 0
Waits c = next_line c.buffer ≡ none

next_line-append :
    (xs : List ℕ) (b : ℕ)
    → next_line xs ≡ none
    → (b == 10) ≡ false
    → next_line (xs ++ b ∷ []) ≡ none
unfolding next_line
next_line-append [] b h e = rw e refl
next_line-append (x ∷ xs) b h e = elim (Bool-cases (x == 10)) [
  | inl newline ↦
      absurd
        (cc (h, ap (λ (t : Bool). if t then some ([], xs) else behind x (next_line xs)) newline))
  | inr other ↦
      rw (other, next_line-append xs b (behind-none x (next_line xs) (rw other at h)) e) refl
]

take_byte-Waits :
    (handle : List ℕ → Shared → Result Shared) (b : ℕ) (c : Connection)
    → Waits c
    → IfOk Waits (take_byte (b == 10) handle b c)
unfolding next_line
take_byte-Waits handle b c w = elim (Bool-cases (b == 10)) [
  | inl newline ↦
      rw newline
        (IfOk-bind (λ s. Unit {0}) Waits (handle c.buffer c.shared) _ (IfOk-any _) (λ s u. refl))
  | inr other ↦ rw other (next_line-append c.buffer b w other)
]

bytewise-Waits :
    (handle : List ℕ → Shared → Result Shared) (bytes : List ℕ) (c : Connection)
    → Waits c
    → IfOk Waits (bytewise handle bytes c)
unfolding bytewise
bytewise-Waits handle [] c w = w
bytewise-Waits handle (b ∷ bytes) c w =
    IfOk-bind Waits Waits (take_byte (b == 10) handle b c) _ (take_byte-Waits handle b c w)
      (λ c' w'. bytewise-Waits handle bytes c' w')

abbrev pub stream : List (List ℕ) → List ℕ
stream [] = []
stream (chunk ∷ chunks) = chunk ++ stream chunks

module _ (env : Environment) (out : Outside) where
  read_lines-bytewise :
      (fuel : ℕ) (c : Connection)
      → length c.buffer < fuel
      → read_lines fuel env out c
        ≡ bytewise (handle_line env out) c.buffer (record c { buffer = [] })
  unfolding read_lines
  read_lines-bytewise zero c h = absurd (omega (arith, h))
  read_lines-bytewise (suc fuel) c h = elim (Option-cases (next_line c.buffer)) [
    | inl e ↦ rw (e, bytewise-none (handle_line env out) c.buffer (record c { buffer = [] }) e) refl
    | inr ((line, rest), e) ↦
        let (same, shorter) =
          bytewise-line (handle_line env out) c.buffer line rest (record c { buffer = [] }) e in
        rw (e, same)
          (ap (λ (f : Shared → Result Connection). handle_line env out line c.shared >>= f)
            (λ i s.
              read_lines-bytewise fuel (record { shared = s; buffer = rest })
                (omega (arith, shorter, h)) i))
  ]

  read_data-bytewise :
      (chunk : List ℕ) (c : Connection)
      → Waits c
      → read_data env out chunk c ≡ bytewise (handle_line env out) chunk c
  unfolding read_data
  read_data-bytewise chunk c w =
      read_lines-bytewise (suc (length (c.buffer ++ chunk)))
        (record c { buffer = c.buffer ++ chunk }) (omega arith)
      ∙ bytewise-append (handle_line env out) c.buffer chunk (record c { buffer = [] })
      ∙ ap (λ (r : Result Connection). r >>= bytewise (handle_line env out) chunk)
          (bytewise-none (handle_line env out) c.buffer (record c { buffer = [] }) w)

  -- The chunks in which a client's bytes arrive, one `readyRead` for each.
  unfoldable pub read_chunks : List (List ℕ) → Connection → Result Connection
  read_chunks [] c = ok c
  read_chunks (chunk ∷ chunks) c = read_data env out chunk c >>= read_chunks chunks

  read_chunks-bytewise :
      (chunks : List (List ℕ)) (c : Connection)
      → Waits c
      → read_chunks chunks c ≡ bytewise (handle_line env out) (stream chunks) c
  unfolding read_chunks bytewise
  read_chunks-bytewise [] c w = refl
  read_chunks-bytewise (chunk ∷ chunks) c w =
      rw
        (
          read_data-bytewise chunk c w,
          bytewise-append (handle_line env out) chunk (stream chunks) c,
        )
        (bind-cong Waits (bytewise (handle_line env out) chunk c) _ _
          (bytewise-Waits (handle_line env out) chunk c w)
          (λ c' w'. read_chunks-bytewise chunks c' w'))

-- However the bytes of a client are cut into chunks, a new connection handles the same lines one after
-- the other, each once, in order and without its newline, and keeps what stands behind the last
-- newline: it does what a reader does that takes byte after byte and handles a line at its newline.
-- An exception from a line ends both. The rounds that `read_data` is given are always enough.
pub framing :
    (env : Environment) (out : Outside) (chunks : List (List ℕ)) (s : Shared)
    → read_chunks env out chunks (record { shared = s; buffer = [] })
      ≡ bytewise (handle_line env out) (stream chunks) (record { shared = s; buffer = [] })
unfolding next_line
framing env out chunks s =
    read_chunks-bytewise env out chunks (record { shared = s; buffer = [] }) refl
