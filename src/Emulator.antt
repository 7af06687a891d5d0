-- ===== src/Emulator.antt =====
-- `_run_qemu` of tools/sos_runner.py: QEMU with a serial port that a thread types at, and a deadline.
pub mod Answers
pub mod Typed
pub mod Judged
use sawos.Prelude.{◌≡◌, ◌≢◌, Bool, true, false, List, [], ◌∷◌, ◌++◌, Option, none, some}
use sawos.Prelude.Int.{ℤ}
use sawos.Text.{Text, codes}
use sawos.Arch.{Arch}
use sawos.Build.{Built, built, escaped}
use sawos.Run.{Ran, Output, decoded, undecoded}

-- `[qemu, *arch["qemu_args"], "-nographic", "-kernel", elf]`
unfoldable pub qemu_argv : Text → Arch → Text → List Text
qemu_argv qemu arch elf = qemu ∷ (arch.qemu_args ++ codes "-nographic" ∷ codes "-kernel" ∷ elf ∷ [])

-- The thread `typist`, with what it has not typed; without `stdin` there is none, and the port stays
-- open. Closed, it holds what it gave up.
pub data Typist : Type 0 where
  absent : Typist
  typing closed : Text → Typist

pub data Guest : Type 0 where
  running : Guest
  ended : ℤ → Guest
  killed : Guest

pub record State : Type 0 where
  pub typist : Typist
  -- typed and not read yet, and what the guest has read
  pub pipe : Text
  pub received : Text
  -- the bytes that the guest has written
  pub written : Text
  pub guest : Guest
  pub returned : Option (Built Ran)

abbrev pub typist_of : Option Text → Typist
typist_of none = absent
typist_of (some feed) = typing feed

abbrev pub start : Option Text → State
start feed = record {
  typist = typist_of feed;
  pipe = [];
  received = [];
  written = [];
  guest = running;
  returned = none;
}

-- `proc.kill()`: a guest that has ended by itself stays as it is.
abbrev pub kill : Guest → Guest
kill running = killed
kill (ended s) = ended s
kill killed = killed

-- What `communicate` returns: with `text=True` the bytes are decoded, or a UnicodeDecodeError is raised.
abbrev pub communicated : Option ℤ → Bool → Option Text → Built Ran
communicated status late none = escaped
communicated status late (some t) =
    built (record { status = status; out = decoded t; timed_out = late })

-- `e.stdout or (e.stdout and e.stdout.decode()) or ""`: the bytes that were read before the deadline,
-- as they are; `None` for no byte gives `""`.
abbrev pub partial_output : Text → Output
partial_output [] = decoded []
partial_output (c ∷ got) = undecoded (c ∷ got)

-- `decode` is the locale's encoding, with the newlines translated; `none` is an error.
module _ (decode : Text → Option Text) where
  pub data Step (s : State) : State → Type 0 where
    -- `os.write`, after the delay: to a guest that runs, or an OSError
    types :
        (c : _) (rest : Text)
        → s.typist ≡ typing (c ∷ rest)
        → s.guest ≡ running
        → Step s (record s { typist = typing rest; pipe = s.pipe ++ c ∷ [] })
    gives_up :
        (c : _) (rest : Text)
        → s.typist ≡ typing (c ∷ rest)
        → s.guest ≢ running
        → Step s (record s { typist = closed (c ∷ rest) })
    closes : s.typist ≡ typing [] → Step s (record s { typist = closed [] })
    -- the guest
    reads :
        (c : _) (rest : Text)
        → s.pipe ≡ c ∷ rest
        → s.guest ≡ running
        → Step s (record s { pipe = rest; received = s.received ++ c ∷ [] })
    writes : (t : Text) → s.guest ≡ running → Step s (record s { written = s.written ++ t })
    ends : (status : ℤ) → s.guest ≡ running → Step s (record s { guest = ended status })
    -- `communicate` returns
    returns :
        (status : ℤ)
        → s.returned ≡ none
        → s.guest ≡ ended status
        → Step s
            (record s { returned = some (communicated (some status) false (decode s.written)) })
    -- With input: after the deadline the guest is killed, and all that it wrote is read.
    expires :
        s.typist ≢ absent
        → s.returned ≡ none
        → Step s (record s {
          guest = kill s.guest;
          returned = some (communicated none true (decode s.written));
        })
    -- Without: `subprocess.run` kills the guest, and keeps what was read when the deadline passed.
    expires_quiet :
        (got unread : Text)
        → s.typist ≡ absent
        → s.returned ≡ none
        → s.written ≡ got ++ unread
        → Step s (record s {
          guest = kill s.guest;
          returned =
              some (built (record { status = none; out = partial_output got; timed_out = true }));
        })

  pub data Steps (s : State) : State → Type 0 where
    begin : Steps s s
    later : {t u : State} → Steps s t → Step t u → Steps s u
