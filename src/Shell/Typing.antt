-- ===== src/Shell/Typing.antt =====
-- The line that is typed at the shell (kernel/src/shell.rs, `shell_loop`), and the line that runs.
use willo_main.Prelude.{
  ℕ, ◌+◌, ◌≤◌, ◌<◌, ◌≡◌, refl, sym, ◌∙◌, ap, subst, Bool, true, ◌&&◌, Option, none, some, List, [],
  ◌∷◌, ◌++◌, map, Text, ltb, ◌==◌, length, push, pop, append-nil, append_assoc, length-append,
  arith, Bool-cases, Option-cases, inl, inr, All, All-append, All-pop, ltb→lt,
}
use mathlib.Core.Option.{some-injective, some-ne-none}
use willo_main.Path.{is_empty}
use willo_main.Shell.{newline, execute_line, Shell}
use willo_main.Shell.Loop.{
  Key, raw_key, unicode, Event, print, serial_print, line_limit, is_printable, is_erase, Session,
  on_enter, on_erase, on_char, on_key, on_keys, finish_line, behind, and_then, both,
}

-- The echo of what is typed.
pub echo : Text → List Event
echo [] = []
echo (c ∷ text) = print (c ∷ []) ∷ serial_print (c ∷ []) ∷ echo text

pub record IsLine (line : Text) : Type 0 where
  pub short : length line ≤ line_limit
  pub printable : All (λ c. is_printable c ≡ true) line

behind_nil : {S : Type 0} (r : Option (S × List Event)) → behind [] r ≡ r
behind_nil none = refl
behind_nil (some (s, events)) = refl

behind_append :
    {S : Type 0} (first more : List Event) (r : Option (S × List Event))
    → behind first (behind more r) ≡ behind (first ++ more) r
behind_append first more none = refl
behind_append first more (some (s, events)) =
    ap (λ l. some (s, l)) (sym (append_assoc first more events))

behind-some :
    {S : Type 0} (first events : List Event) (r : Option (S × List Event)) (s : S)
    → behind first r ≡ some (s, events)
    → (more : List Event) × (r ≡ some (s, more))
behind-some first events none s h = cc
behind-some first events (some (s', more)) s h =
    (more, ap (λ t. some (t, more)) (ap (λ p. p.0) (some-injective _ _ h)))

length-pop : (s : Text) → length (pop s) ≤ length s
length-pop [] = omega arith
length-pop (x ∷ []) = omega arith
length-pop (x ∷ y ∷ s) = omega (arith, length-pop (y ∷ s))

both_true : (a b : Bool) → (a && b) ≡ true → (a ≡ true) × (b ≡ true)
both_true a b h = ground (arith, h)

printable_range : (c : ℕ) → is_printable c ≡ true → (32 ≤ c) × (c ≤ 126)
printable_range c h = ground arith

module _ {W : Type 0} (ticks : W → ℕ) (is_utf8 : Text → Bool) where
  on_key-printable :
      (c : ℕ) (s : Session W)
      → is_printable c ≡ true
      → length s.line < line_limit
      → on_key ticks is_utf8 (unicode c) s
        ≡ some (record s { line = push s.line c }, print (c ∷ []) ∷ serial_print (c ∷ []) ∷ [])
  unfolding on_key on_char
  on_key-printable c s h k = ground (arith, printable_range c h)

  type_text :
      (text : Text) (rest : List Key) (s : Session W)
      → All (λ c. is_printable c ≡ true) text
      → length s.line + length text ≤ line_limit
      → on_keys ticks is_utf8 (map unicode text ++ rest) s
        ≡ behind (echo text) (on_keys ticks is_utf8 rest (record s { line = s.line ++ text }))
  unfolding on_keys echo
  type_text [] rest s h k =
      ap (λ l. on_keys ticks is_utf8 rest (record s { line = l })) (sym (append-nil s.line))
      ∙ sym (behind_nil _)
  type_text (c ∷ text) rest s h k =
      let next = record s { line = push s.line c } in
      let fits : length (push s.line c) + length text ≤ line_limit =
        omega (arith, k, length-append s.line (c ∷ [])) in
      let keep = type_text text rest next h.1 fits in
      let room : length s.line < line_limit = omega (arith, k) in
      let key = on_key-printable c s h.0 room in
      ap (λ r. and_then r (on_keys ticks is_utf8 (map unicode text ++ rest))) key
      ∙ ap (behind (both (c ∷ []))) keep
      ∙ behind_append (both (c ∷ [])) (echo text) _
      ∙ ap (λ l. behind (echo (c ∷ text)) (on_keys ticks is_utf8 rest (record s { line = l })))
          (append_assoc s.line (c ∷ []) text)

  and_then_end : (r : Option (Session W × List Event)) → and_then r (on_keys ticks is_utf8 []) ≡ r
  unfolding on_keys
  and_then_end none = refl
  and_then_end (some (s, events)) = ap (λ l. some (s, l)) (append-nil events)

  -- From an empty line, typing a printable text of at most 120 characters and Enter does what
  -- execute_line of exactly this text does, after the echo of each character.
  pub on_keys-typed :
      (text : Text) (s : Session W)
      → IsLine text
      → s.line ≡ []
      → on_keys ticks is_utf8 (map unicode text ++ (unicode newline ∷ [])) s
        ≡ behind
            (echo text)
            (finish_line ticks is_utf8 (execute_line ticks is_utf8 s.shell text s.world))
  unfolding on_keys on_key on_enter
  on_keys-typed text s h e =
      type_text text (unicode newline ∷ []) s h.printable (omega (arith, h.short, ap length e))
      ∙ ap
          (λ l.
            behind (echo text)
              (on_keys ticks is_utf8 (unicode newline ∷ []) (record s { line = l ++ text })))
          e
      ∙ ap (behind (echo text)) (and_then_end _)

  finish_line-IsLine :
      (r : Option Text × Shell W × W) (s' : Session W) (events : List Event)
      → finish_line ticks is_utf8 r ≡ some (s', events)
      → s'.line ≡ []
  finish_line-IsLine (none, sh, w) s' events h = cc
  finish_line-IsLine (some out, sh, w) s' events h = sym (ap (λ p. p.0.line) (some-injective _ _ h))

  on_enter-IsLine :
      (s s' : Session W) (events : List Event)
      → on_enter ticks is_utf8 s ≡ some (s', events)
      → IsLine s'.line
  unfolding on_enter
  on_enter-IsLine s s' events h =
      subst IsLine (sym (finish_line-IsLine _ s' events h))
        (record { short = omega arith; printable = tt })

  on_erase-IsLine : (s : Session W) → IsLine s.line → IsLine (on_erase ticks is_utf8 s).0.line
  unfolding on_erase
  on_erase-IsLine s l = elim (Bool-cases (is_empty s.line)) [
    | inl e ↦ rw e l
    | inr e ↦ rw e (record {
      short = omega (arith, length-pop s.line, l.short);
      printable = All-pop _ s.line l.printable;
    })
  ]

  on_char-IsLine :
      (c : ℕ) (s : Session W) → IsLine s.line → IsLine (on_char ticks is_utf8 c s).0.line
  unfolding on_char
  on_char-IsLine c s l = elim (Bool-cases (is_printable c && ltb (length s.line) line_limit)) [
    | inl e ↦
        let room : (is_printable c ≡ true) × (ltb (length s.line) line_limit ≡ true) =
          both_true _ _ e in
        let short : length s.line < line_limit = ltb→lt _ _ room.1 in
        rw e (record {
          short = omega (arith, short, length-append s.line (c ∷ []));
          printable = All-append _ s.line (c ∷ []) l.printable (room.0, tt);
        })
    | inr e ↦ rw e l
  ]

  on_key-IsLine :
      (key : Key) (s s' : Session W) (events : List Event)
      → IsLine s.line
      → on_key ticks is_utf8 key s ≡ some (s', events)
      → IsLine s'.line
  unfolding on_key
  on_key-IsLine (raw_key r) s s' events l h =
      subst IsLine (ap (λ p. p.0.line) (some-injective _ _ h)) l
  on_key-IsLine (unicode c) s s' events l h = elim (Bool-cases (c == newline)) [
    | inl e ↦ on_enter-IsLine s s' events (rw e at h)
    | inr e ↦ elim (Bool-cases (is_erase c)) [
      | inl e1 ↦
          subst IsLine (ap (λ p. p.0.line) (some-injective _ _ (rw (e, e1) at h)))
            (on_erase-IsLine s l)
      | inr e1 ↦
          subst IsLine (ap (λ p. p.0.line) (some-injective _ _ (rw (e, e1) at h)))
            (on_char-IsLine c s l)
    ]
  ]

  -- Whatever keys are typed, a line of at most 120 printable characters stays one, unless a
  -- command panics.
  pub on_keys-IsLine :
      (keys : List Key) (s s' : Session W) (events : List Event)
      → IsLine s.line
      → on_keys ticks is_utf8 keys s ≡ some (s', events)
      → IsLine s'.line
  unfolding on_keys
  on_keys-IsLine [] s s' events l h = subst IsLine (ap (λ p. p.0.line) (some-injective _ _ h)) l
  on_keys-IsLine (k ∷ keys) s s' events l h = elim (Option-cases (on_key ticks is_utf8 k s)) [
    | inl e ↦ absurd (some-ne-none _ (sym h ∙ ap (λ r. and_then r (on_keys ticks is_utf8 keys)) e))
    | inr ((s1, first), e) ↦
        let (more, q) =
          behind-some first events _ s'
            (sym (ap (λ r. and_then r (on_keys ticks is_utf8 keys)) e) ∙ h) in
        on_keys-IsLine keys s1 s' more (on_key-IsLine k s s1 first l e) q
  ]
