-- ===== src/Toolchain/Complete.antt =====
-- The fetch of tools/toolchain.py: the checkout that it brings, or what it leaves when there is none.
use sawos.Prelude.{◌≡◌, ◌≢◌, ◌⊎◌, inl, inr, sym, ap, ◌∙◌, false, List, Option, some, Option-cases}
use sawos.Text.{Text, codes}
use sawos.Toolchain.{Result, ok, err, os_error, fetch_needs, fetch_failed}
use sawos.Paths.{◌/+◌}
use sawos.Toolchain.Os.{Os, Disk, exited, unstarted, looks_like_sawlang}
use sawos.Toolchain.Fetch.{
  Outcome, done, refused, failed, run_plan, plan, commands, partial_of, result_of, fetch,
  cache_root,
}
use sawos.Toolchain.Atomic.{partial-ne}
use sawos.Toolchain.Commands.{build, StopsAt}
use sawos.Toolchain.Ends.{
  Ended, complete, command_failed, not_started, leftover, occupied, plan-Ended,
}

-- The ways in which a fetch ends with no checkout, by its result and by what stands beside the
-- checkout's place: `tmp` is there before, `left` after, and `there` is at the place itself.
pub data Undone {C : Type 0} (os : Os C) (argvs : List (List Text)) (tmp there : Option C)
    (res : Result Text) (left : Option C) : Type 0 where
  tool_missing :
      (tool : Text) → res ≡ err (fetch_needs tool) → left ≡ tmp → Undone os argvs tmp there res left
  exits :
      (argv : List Text) (found end : C)
      → res ≡ err (fetch_failed argv)
      → StopsAt os argvs os.empty_tree argv exited found end
      → left ≡ os.remains end
      → Undone os argvs tmp there res left
  cannot_start :
      (argv : List Text) (found end : C)
      → res ≡ os_error
      → StopsAt os argvs os.empty_tree argv unstarted found end
      → left ≡ some found
      → Undone os argvs tmp there res left
  cannot_remove :
      (old kept : C)
      → res ≡ os_error
      → tmp ≡ some old
      → os.remains old ≡ some kept
      → left ≡ some kept
      → Undone os argvs tmp there res left
  cannot_publish :
      (built other : C)
      → res ≡ os_error
      → build os argvs os.empty_tree ≡ some built
      → there ≡ some other
      → os.is_empty other ≡ false
      → left ≡ some built
      → Undone os argvs tmp there res left

module _ {C : Type 0} (os : Os C) (env : Text → Option Text) (sha : Text) (disk : Disk C)
    (absent : looks_like_sawlang os disk (cache_root os env /+ sha) ≡ false) where
  dest_of : Text
  dest_of = cache_root os env /+ sha

  planned : Outcome × Disk C
  unfolding dest_of
  planned = run_plan os (partial_of dest_of) dest_of (plan sha (partial_of dest_of)) disk

  -- A checkout that is not in the cache is fetched by the plan, if the tools are there.
  fetch-planned :
      ((tool : Text) × (fetch os env sha disk ≡ (err (fetch_needs tool), disk)))
      ⊎ (fetch os env sha disk ≡ result_of dest_of planned)
  unfolding fetch planned dest_of
  fetch-planned = elim (Option-cases (os.which (codes "git"))) [
    | inl g ↦ inl (codes "git", rw (absent, g))
    | inr (g, e) ↦ elim (Option-cases (os.which (codes "python3"))) [
      | inl p ↦ inl (codes "python3", rw (absent, e, p))
      | inr (p, q) ↦ inr (rw (absent, e, q))
    ]
  ]

  ok_of :
      (r : Outcome × Disk C) (path : Text)
      → Ended os (partial_of dest_of) dest_of (partial-ne dest_of) sha disk r
      → (result_of dest_of r).0 ≡ ok path
      → (path ≡ dest_of)
        × ((tree : C) × (build os (commands sha (partial_of path)) os.empty_tree ≡ some tree)
            × ((result_of dest_of r).1 path ≡ some tree))
  ok_of (done, d) path (complete t e b m n) h =
      let q : dest_of ≡ path = cc in (sym q, (t, rw (sym q) b, rw (sym q) m))
  ok_of (done, d) path (command_failed a f l o s m) h = cc
  ok_of (done, d) path (not_started a f l o s m) h = cc
  ok_of (done, d) path (leftover a k o p q m) h = cc
  ok_of (done, d) path (occupied a k o p q x m) h = cc
  ok_of (failed argv, d) path e h = cc
  ok_of (refused, d) path e h = cc

  -- A fetch of a commit that is not cached, if it returns a path, returns the cache's place for the
  -- commit, and there stands the tree that the commands built, every one of them done.
  pub fetch-ok :
      (path : Text)
      → (fetch os env sha disk).0 ≡ ok path
      → (path ≡ cache_root os env /+ sha)
        × ((tree : C) × (build os (commands sha (partial_of path)) os.empty_tree ≡ some tree)
            × ((fetch os env sha disk).1 path ≡ some tree))
  unfolding dest_of planned
  fetch-ok path h = elim fetch-planned [
    | inl (tool, e) ↦ absurd (no_path tool (sym (ap (λ (x : Result Text × Disk C). x.0) e) ∙ h))
    | inr e ↦ rw e (
        ok_of planned path
          (plan-Ended os (partial_of dest_of) dest_of (partial-ne dest_of) sha disk)
          (sym (ap (λ (x : Result Text × Disk C). x.0) e) ∙ h))
  ]
    where
      no_path : (tool : Text) → ◌≢◌ {A = Result Text} (err (fetch_needs tool)) (ok path)
      no_path tool e = cc

  abbrev Leaves : Result Text × Disk C → Type 0
  Leaves (res, d) =
      (d dest_of ≡ disk dest_of)
      × Undone os (commands sha (partial_of dest_of)) (disk (partial_of dest_of)) (disk dest_of) res
          (d (partial_of dest_of))
