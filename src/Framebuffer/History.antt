-- ===== src/Framebuffer/History.antt =====
-- The ring (kernel/src/framebuffer.rs) against a log of everything that was written.
use willo_main.Prelude.{
  ℕ, zero, suc, ◌+◌, ◌-◌, ◌≤◌, ◌<◌, ◌≡◌, inl, inr, refl, sym, subst, ◌∙◌, ap, List, [], ◌∷◌, ◌==◌,
  leb, if◌then◌else◌, push, length, drop, length-append, length-drop, arith, Bool-cases,
}
use willo_main.Framebuffer.{Line, Writer, byte_len, max_line_len, scrollback_lines, write_str}
use willo_main.Framebuffer.Steps.{
  TextState, text_state, commit, add, put, put_all, write_str-put_all,
}

-- Everything written so far: the finished lines, oldest first, and the one that is being composed.
pub record Log : Type 0 where
  pub lines : List Line
  pub composing : Line

finish : Log → Log
finish l = record { lines = push l.lines l.composing; composing = [] }

-- A newline finishes the line, a carriage return leaves no trace, any other character is added, to
-- a line of its own where the line already has `MAX_LINE_LEN` bytes.
log_char : ℕ → Log → Log
log_char c l =
    if c == 10
    then finish l
    else if c == 13
    then l
    else (let l' = if leb max_line_len (byte_len l.composing) then finish l else l in
        record l' { composing = push l'.composing c })

pub log_str : List ℕ → Log → Log
log_str [] l = l
log_str (c ∷ s) l = log_str s (log_char c l)

-- The last `SCROLLBACK_LINES` of the lines.
unfoldable pub newest : List Line → List Line
newest ls = drop (length ls - scrollback_lines) ls

-- The writer shows the log: its ring is the newest lines, its current line the one composed.
abbrev pub Shows : TextState → Log → Type 0
Shows t l = (t.ring ≡ newest l.lines) × (t.current_line ≡ l.composing)

drop-push :
    (k : ℕ) (ls : List Line) (x : Line) → k ≤ length ls → drop k (push ls x) ≡ push (drop k ls) x
drop-push zero ls x h = refl
drop-push (suc k) [] x h = absurd (omega arith)
drop-push (suc k) (l ∷ ls) x h = drop-push k ls x (omega arith)

drop-drop : (k : ℕ) (ls : List Line) → drop 1 (drop k ls) ≡ drop (suc k) ls
drop-drop zero ls = refl
drop-drop (suc k) [] = refl
drop-drop (suc k) (l ∷ ls) = drop-drop k ls

length-newest : (ls : List Line) → length (newest ls) ≡ length ls - (length ls - scrollback_lines)
unfolding newest
length-newest ls = length-drop (length ls - scrollback_lines) ls

newest_all : (ls : List Line) → length ls ≤ scrollback_lines → newest ls ≡ ls
unfolding newest
newest_all ls h = let e : length ls - scrollback_lines ≡ 0 = omega arith in ap (λ k. drop k ls) e

newest_from : (ls : List Line) (k : ℕ) → length ls ≡ k + scrollback_lines → newest ls ≡ drop k ls
unfolding newest
newest_from ls k h = let e : length ls - scrollback_lines ≡ k = omega arith in ap (λ n. drop n ls) e

newest-full :
    (ls : List Line) (x : Line) (k : ℕ)
    → length ls ≡ k + scrollback_lines
    → push (drop 1 (newest ls)) x ≡ newest (push ls x)
newest-full ls x k h =
    ap (λ t. push (drop 1 t) x) (newest_from ls k h)
    ∙ (ap (λ t. push t x) (drop-drop k ls)
        ∙ (sym (drop-push (suc k) ls x (omega arith))
            ∙ sym (newest_from (push ls x) (suc k) (omega (arith, length-append ls (x ∷ []))))))

-- Pushing onto the ring, after its oldest line is dropped where it is full.
newest-push :
    (ls : List Line) (x : Line)
    → push (if length (newest ls) == scrollback_lines then drop 1 (newest ls) else newest ls) x
      ≡ newest (push ls x)
newest-push ls x = elim (Bool-cases (length (newest ls) == scrollback_lines)) [
  | inl full ↦
      rw full (newest-full ls x (length ls - scrollback_lines) (ground (arith, length-newest ls)))
  | inr room ↦ rw room (
      let short : length ls < scrollback_lines = ground (arith, length-newest ls) in
      ap (λ t. push t x) (newest_all ls (omega arith))
      ∙ sym (newest_all (push ls x) (omega (arith, length-append ls (x ∷ [])))))
]

commit-Shows : (t : TextState) (l : Log) → Shows t l → Shows (commit t) (finish l)
unfolding commit finish
commit-Shows t l h = (
  ap (λ r. push (if length r == scrollback_lines then drop 1 r else r) t.current_line) h.0
      ∙ (ap
            (push (
              if length (newest l.lines) == scrollback_lines
              then drop 1 (newest l.lines)
              else newest l.lines))
            h.1
          ∙ newest-push l.lines l.composing),
  refl,
)

add-Shows :
    (c : ℕ) (t : TextState) (l : Log)
    → Shows t l
    → Shows (add c t) (record l { composing = push l.composing c })
unfolding add
add-Shows c t l h = (h.0, ap (λ r. push r c) h.1)

put-Shows : (c : ℕ) (t : TextState) (l : Log) → Shows t l → Shows (put c t) (log_char c l)
unfolding put log_char
put-Shows c t l h = elim (Bool-cases (c == 10)) [
  | inl e ↦ rw e (commit-Shows t l h)
  | inr e ↦ rw e (elim (Bool-cases (c == 13)) [
    | inl f ↦ rw f h
    | inr f ↦
        rw (f, ap byte_len h.1)
          (elim (Bool-cases (leb max_line_len (byte_len l.composing))) [
            | inl g ↦ rw g (add-Shows c (commit t) (finish l) (commit-Shows t l h))
            | inr g ↦ rw g (add-Shows c t l h)
          ])
  ])
]

put_all-Shows :
    (s : List ℕ) (t : TextState) (l : Log) → Shows t l → Shows (put_all s t) (log_str s l)
unfolding put_all log_str
put_all-Shows [] t l h = h
put_all-Shows (c ∷ s) t l h = put_all-Shows s (put c t) (log_char c l) (put-Shows c t l h)

-- If the writer's ring is the newest 256 finished lines of a log and its current line is the one
-- the log is composing, this still holds after write_str, for the log with the same characters
-- added.
pub write_str-Shows :
    (gw : ℕ) (s : List ℕ) (w : Writer) (l : Log)
    → Shows (text_state w) l
    → Shows (text_state (write_str gw s w)) (log_str s l)
write_str-Shows gw s w l h =
    subst (λ t. Shows t (log_str s l)) (sym (write_str-put_all gw s w))
      (put_all-Shows s (text_state w) l h)
