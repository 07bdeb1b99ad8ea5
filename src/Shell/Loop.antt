-- ===== src/Shell/Loop.antt =====
-- kernel/src/shell.rs: `shell_loop`, from the keys that `pc_keyboard` decodes on. Its output goes to
-- the console and to the serial port, and is a list of events here.
use willo_main.Prelude.{
  ℕ, Bool, ◌&&◌, ◌||◌, Option, none, some, List, [], ◌∷◌, ◌++◌, Text, codes, same, ltb, leb, ◌==◌,
  if◌then◌else◌, length, push, pop,
}
use willo_main.Path.{is_empty}
use willo_main.Keyboard.{RawKey}
use willo_main.Shell.{Shell, execute_line, prompt, clear_sentinel, newline}

-- `DecodedKey`
pub data Key : Type 0 where
  raw_key : RawKey → Key
  unicode : ℕ → Key

-- `print!` and `serial_print!` of one text, `clear` of the console, `route_rawkey`.
pub data Event : Type 0 where
  print : Text → Event
  serial_print : Text → Event
  clear_console : Event
  route : RawKey → Event

abbrev pub line_limit : ℕ
line_limit = 120

abbrev pub both : Text → List Event
both s = print s ∷ serial_print s ∷ []

abbrev pub is_printable : ℕ → Bool
is_printable c = leb 32 c && leb c 126

abbrev pub is_erase : ℕ → Bool
is_erase c = c == 8 || c == 127

module _ (W : Type 0) where
  pub record Session : Type 0 where
    pub shell : Shell W
    pub line : Text
    pub world : W

-- Events that come first.
abbrev pub behind : {S : Type 0} → List Event → Option (S × List Event) → Option (S × List Event)
behind events none = none
behind events (some (s, more)) = some (s, events ++ more)

abbrev pub and_then :
    {S : Type 0} → Option (S × List Event) → (S → Option (S × List Event)) → Option (S × List Event)
and_then none next = none
and_then (some (s, events)) next = behind events (next s)

module _ {W : Type 0} (ticks : W → ℕ) (is_utf8 : Text → Bool) where
  -- What is shown of a reply.
  unfoldable pub show_reply : Text → List Event
  unfolding same
  show_reply out =
      if same out clear_sentinel
      then clear_console ∷ serial_print (27 ∷ (codes "[2J" ++ (27 ∷ codes "[H"))) ∷ []
      else if is_empty out
      then []
      else both out

  abbrev pub finish_line : Option Text × Shell W × W → Option (Session W × List Event)
  finish_line (none, sh, w) = none
  finish_line (some out, sh, w) = some (
    record { shell = sh; line = []; world = w },
    both (newline ∷ []) ++ (show_reply out ++ both (prompt sh)),
  )

  -- The arm of `'\n'`. `none` is a panic of the command.
  unfoldable pub on_enter : Session W → Option (Session W × List Event)
  unfolding execute_line show_reply prompt
  on_enter s = finish_line (execute_line ticks is_utf8 s.shell s.line s.world)

  -- The arm of a backspace.
  unfoldable pub on_erase : Session W → Session W × List Event
  on_erase s =
      if is_empty s.line then (s, []) else (record s { line = pop s.line }, both (8 ∷ 32 ∷ 8 ∷ []))

  -- The arm of a printable character, and the arm behind it.
  unfoldable pub on_char : ℕ → Session W → Session W × List Event
  on_char c s =
      if is_printable c && ltb (length s.line) line_limit
      then (record s { line = push s.line c }, both (c ∷ []))
      else (s, [])

  -- One round of the loop, for a key that was decoded.
  unfoldable pub on_key : Key → Session W → Option (Session W × List Event)
  unfolding on_enter on_erase on_char
  on_key (raw_key k) s = some (s, route k ∷ [])
  on_key (unicode c) s =
      if c == newline
      then on_enter s
      else if is_erase c
      then some (on_erase s)
      else some (on_char c s)

  -- What the loop has done after the keys.
  unfoldable pub on_keys : List Key → Session W → Option (Session W × List Event)
  unfolding on_key
  on_keys [] s = some (s, [])
  on_keys (k ∷ ks) s = and_then (on_key k s) (on_keys ks)
