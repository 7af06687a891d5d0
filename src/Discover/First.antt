-- ===== src/Discover/First.antt =====
-- Which clang `_find_clang` of tools/sos_runner.py takes.
use sawos.Prelude.{
  ◌≡◌, ◌⊎◌, inl, inr, refl, ap, Bool, true, false, List, [], ◌∷◌, ◌++◌, Option, none, some,
  Option-cases,
}
use sawos.Text.{Text}
use sawos.Prelude.{All}
use sawos.Arch.{Arch}
use sawos.Build.{Built, built, tool_error, escaped}
use sawos.Discover.{
  Machine, candidates, located, probe_argv, and_then, probe_all, or_next, first_clang, find_clang,
}

module _ (root : Text) (m : Machine) where
  abbrev Assembles : Text → Arch → Type 0
  Assembles path a = m.probe (probe_argv root m path a) ≡ built tt

  -- It assembles the boot code of every architecture.
  abbrev pub Works : Text → List Arch → Type 0
  Works path arches = All (Assembles path) arches

  -- It assembles those of some, and then one refuses.
  abbrev pub Refuses : Text → List Arch → Type 0
  Refuses path arches =
      (before : List Arch) × (a : Arch) × (after : List Arch) × (arches ≡ before ++ a ∷ after)
      × Works path before
      × (m.probe (probe_argv root m path a) ≡ tool_error)

  -- The candidate is not there, or refuses.
  abbrev pub Fails : List Arch → Text → Type 0
  Fails arches c =
      (located root m c ≡ none)
      ⊎ ((path : Text) × (located root m c ≡ some path) × Refuses path arches)

  abbrev pub Escapes : Type 0
  Escapes = (path : Text) × (a : Arch) × (m.probe (probe_argv root m path a) ≡ escaped)

  -- The first candidate that works, none if all fail, or the exception of a probe.
  abbrev pub IsFirst : List Arch → List Text → Built (Option Text) → Type 0
  IsFirst arches cs (built none) = All (Fails arches) cs
  IsFirst arches cs (built (some path)) =
      (before : List Text) × (c : Text) × (after : List Text) × (cs ≡ before ++ c ∷ after)
      × All (Fails arches) before
      × (located root m c ≡ some path)
      × Works path arches
  IsFirst arches cs tool_error = ⊥
  IsFirst arches cs escaped = Escapes

  abbrev Probes : Text → List Arch → Built Bool → Type 0
  Probes path arches (built true) = Works path arches
  Probes path arches (built false) = Refuses path arches
  Probes path arches tool_error = ⊥
  Probes path arches escaped = Escapes

  Probes-cons :
      (path : Text) (a : Arch) (arches : List Arch) (r : Built (Unit {0})) (rest : Built Bool)
      → m.probe (probe_argv root m path a) ≡ r
      → Probes path arches rest
      → Probes path (a ∷ arches) (and_then r rest)
  Probes-cons path a arches (built u) (built true) e h = (e, h)
  Probes-cons path a arches (built u) (built false) e (before, x, after, q, w, f) =
      (a ∷ before, x, after, ap (λ ys. a ∷ ys) q, (e, w), f)
  Probes-cons path a arches (built u) tool_error e h = h
  Probes-cons path a arches (built u) escaped e h = h
  Probes-cons path a arches tool_error rest e h = ([], a, arches, refl, tt, e)
  Probes-cons path a arches escaped rest e h = (path, a, e)

  probe_all-Probes :
      (path : Text) (arches : List Arch) → Probes path arches (probe_all root m path arches)
  unfolding probe_all
  probe_all-Probes path [] = tt
  probe_all-Probes path (a ∷ arches) =
      Probes-cons path a arches (m.probe (probe_argv root m path a)) _ refl
        (probe_all-Probes path arches)

  IsFirst-skip :
      (arches : List Arch) (c : Text) (cs : List Text) (r : Built (Option Text))
      → Fails arches c
      → IsFirst arches cs r
      → IsFirst arches (c ∷ cs) r
  IsFirst-skip arches c cs (built none) f h = (f, h)
  IsFirst-skip arches c cs (built (some path)) f (before, x, after, q, fs, l, w) =
      (c ∷ before, x, after, ap (λ ys. c ∷ ys) q, (f, fs), l, w)
  IsFirst-skip arches c cs tool_error f h = h
  IsFirst-skip arches c cs escaped f h = h

  IsFirst-probed :
      (arches : List Arch) (c : Text) (cs : List Text) (path : Text) (p : Built Bool)
      (next : Built (Option Text))
      → located root m c ≡ some path
      → Probes path arches p
      → IsFirst arches cs next
      → IsFirst arches (c ∷ cs) (or_next path p next)
  IsFirst-probed arches c cs path (built true) next l w h = ([], c, cs, refl, tt, l, w)
  IsFirst-probed arches c cs path (built false) next l w h =
      IsFirst-skip arches c cs next (inr (path, l, w)) h
  IsFirst-probed arches c cs path tool_error next l w h = absurd w
  IsFirst-probed arches c cs path escaped next l w h = w

  first_clang-IsFirst :
      (arches : List Arch) (cs : List Text) → IsFirst arches cs (first_clang root m arches cs)
  unfolding first_clang
  first_clang-IsFirst arches [] = tt
  first_clang-IsFirst arches (c ∷ cs) = elim (Option-cases (located root m c)) [
    | inl e ↦
        rw (e, first_clang)
          (IsFirst-skip arches c cs (first_clang root m arches cs) (inl e)
            (first_clang-IsFirst arches cs))
    | inr (path, e) ↦
        rw (e, first_clang)
          (IsFirst-probed arches c cs path (probe_all root m path arches)
            (first_clang root m arches cs) e (probe_all-Probes path arches)
            (first_clang-IsFirst arches cs))
  ]

  -- The search answers with the first candidate that is there and assembles the boot code of every
  -- architecture; with nothing exactly where each candidate is missing or refuses one of them; and an
  -- exception only where a probe raises one.
  pub find_clang-IsFirst :
      (arches : List Arch) → IsFirst arches (candidates root m) (find_clang root m arches)
  unfolding find_clang
  find_clang-IsFirst arches = first_clang-IsFirst arches (candidates root m)
