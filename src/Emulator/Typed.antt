-- ===== src/Emulator/Typed.antt =====
-- What a run under QEMU keeps, in every order of the typist, the guest and the deadline.
use sawos.Prelude.{◌≡◌, ◌≢◌, refl, sym, ap, ◌∙◌, [], ◌∷◌, ◌++◌, Option, none, some, append_assoc}
use sawos.Text.{Text}
use sawos.Emulator.{
  Typist, absent, typing, closed, Guest, running, ended, killed, kill, State, start, Step, types,
  gives_up, closes, reads, writes, ends, returns, expires, expires_quiet, Steps, begin, later,
}
use sawos.Emulator.Answers.{
  SameKind, IsAnswer, running-IsAnswer, returned-IsAnswer, expired-IsAnswer, quiet-IsLate,
}

abbrev pub left : Typist → Text
left absent = []
left (typing rest) = rest
left (closed rest) = rest

abbrev pub text_of : Option Text → Text
text_of none = []
text_of (some feed) = feed

-- Every character of the input is read, or in the pipe, or not typed yet, in this order.
abbrev pub Kept : Option Text → State → Type 0
Kept feed s = s.received ++ (s.pipe ++ left s.typist) ≡ text_of feed

-- The guest's console is at its end only when all is typed, or when nobody reads it.
abbrev pub EndsLate : Typist → Guest → Type 0
EndsLate (closed (_ ∷ _)) g = g ≢ running
EndsLate _ g = Unit

pub record IsRun (decode : Text → Option Text) (feed : Option Text) (s : State) : Type 0 where
  pub kept : Kept feed s
  pub late : EndsLate s.typist s.guest
  pub kind : SameKind feed s.typist
  pub answer : IsAnswer decode feed s.written s.guest s.returned

SameKind-typing :
    (feed : Option Text) (t u : Typist)
    → SameKind feed t
    → t ≢ absent
    → u ≢ absent
    → SameKind feed u
SameKind-typing none t u h n m = absurd (n h)
SameKind-typing (some feed) t u h n m = m

EndsLate-stopped : (t : Typist) (g h : Guest) → EndsLate t g → h ≢ running → EndsLate t h
EndsLate-stopped absent g h l n = tt
EndsLate-stopped (typing _) g h l n = tt
EndsLate-stopped (closed []) g h l n = tt
EndsLate-stopped (closed (_ ∷ _)) g h l n = n

kill-stops : (g : Guest) → kill g ≢ running
kill-stops running = λ e. cc
kill-stops (ended s) = λ e. cc
kill-stops killed = λ e. cc

start-IsRun : (decode : Text → Option Text) (feed : Option Text) → IsRun decode feed (start feed)
start-IsRun decode none = record { kept = refl; late = tt; kind = refl; answer = λ e. cc }
start-IsRun decode (some feed) = record { kept = refl; late = tt; kind = λ e. cc; answer = λ e. cc }

-- The typist's next state, and what it has left, in terms of the one before.
module _ (decode : Text → Option Text) (feed : Option Text) (s : State)
    (h : IsRun decode feed s) where
  kind_from : (old new : Typist) → s.typist ≡ old → old ≢ absent → new ≢ absent → SameKind feed new
  kind_from old new e n m = SameKind-typing feed s.typist new h.kind (rw e n) m

  kept_from : (old : Typist) → s.typist ≡ old → s.received ++ (s.pipe ++ left old) ≡ text_of feed
  kept_from old e = rw (← e) h.kept

Step-IsRun :
    (decode : Text → Option Text) (feed : Option Text) (s t : State)
    → Step decode s t
    → IsRun decode feed s
    → IsRun decode feed t
Step-IsRun decode feed s _ (types c rest e g) h = record {
  kept =
      ap (λ x. s.received ++ x) (append_assoc s.pipe (c ∷ []) rest) ∙ kept_from decode feed s h _ e;
  late = tt;
  kind = kind_from decode feed s h _ (typing rest) e (λ q. cc) (λ q. cc);
  answer = h.answer;
}
Step-IsRun decode feed s _ (gives_up c rest e g) h = record {
  kept = kept_from decode feed s h _ e;
  late = g;
  kind = kind_from decode feed s h _ (closed (c ∷ rest)) e (λ q. cc) (λ q. cc);
  answer = h.answer;
}
Step-IsRun decode feed s _ (closes e) h = record {
  kept = kept_from decode feed s h _ e;
  late = tt;
  kind = kind_from decode feed s h _ (closed []) e (λ q. cc) (λ q. cc);
  answer = h.answer;
}
Step-IsRun decode feed s _ (reads c rest e g) h = record {
  kept =
      append_assoc s.received (c ∷ []) (rest ++ left s.typist)
      ∙ (ap (λ x. s.received ++ (x ++ left s.typist)) (sym e) ∙ h.kept);
  late = h.late;
  kind = h.kind;
  answer = h.answer;
}
Step-IsRun decode feed s _ (writes t g) h = record {
  kept = h.kept;
  late = h.late;
  kind = h.kind;
  answer =
      running-IsAnswer decode feed s.written (s.written ++ t) s.guest s.guest s.returned g h.answer
        (rw g (λ q. cc));
}
Step-IsRun decode feed s _ (ends status g) h = record {
  kept = h.kept;
  late = EndsLate-stopped s.typist s.guest (ended status) h.late (λ q. cc);
  kind = h.kind;
  answer =
      running-IsAnswer decode feed s.written s.written s.guest (ended status) s.returned g h.answer
        (λ q. cc);
}
Step-IsRun decode feed s _ (returns status r g) h = record {
  kept = h.kept;
  late = h.late;
  kind = h.kind;
  answer = returned-IsAnswer decode feed s.written s.guest status (decode s.written) refl g;
}
Step-IsRun decode feed s _ (expires a r) h = record {
  kept = h.kept;
  late = EndsLate-stopped s.typist s.guest (kill s.guest) h.late (kill-stops s.guest);
  kind = h.kind;
  answer =
      expired-IsAnswer decode feed s.typist s.written (kill s.guest) (decode s.written) refl h.kind
        a (kill-stops s.guest);
}
Step-IsRun decode feed s _ (expires_quiet got unread a r e) h = record {
  kept = h.kept;
  late = EndsLate-stopped s.typist s.guest (kill s.guest) h.late (kill-stops s.guest);
  kind = h.kind;
  answer = (
    kill-stops s.guest,
    (refl, quiet-IsLate decode feed s.typist s.written got unread h.kind a e),
  );
}

Steps-keep :
    (decode : Text → Option Text) (feed : Option Text) (s t : State)
    → Steps decode s t
    → IsRun decode feed s
    → IsRun decode feed t
Steps-keep decode feed s _ begin h = h
Steps-keep decode feed s u (later {t} ss step) h =
    Step-IsRun decode feed t u step (Steps-keep decode feed s t ss h)

-- In every state that a run reaches: what the guest has read, what is in the pipe and what is left to
-- type are together the input, in its order; the console's end comes only when all is typed or the
-- guest is gone, and not at all without input. What is returned comes when the guest is gone: its own
-- exit status with all that it wrote, decoded; or no status, after the deadline, with all that it
-- wrote, decoded, if there is input, and with a first part of it as undecoded bytes, or an empty text,
-- if there is none; or an exception, and then what it wrote does not decode.
pub Steps-IsRun :
    (decode : Text → Option Text) (feed : Option Text) (s : State)
    → Steps decode (start feed) s
    → IsRun decode feed s
Steps-IsRun decode feed s ss = Steps-keep decode feed (start feed) s ss (start-IsRun decode feed)
