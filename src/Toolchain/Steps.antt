-- ===== src/Toolchain/Steps.antt =====
-- The steps of `resolve` of tools/toolchain.py, and where an answer comes from.
use sawos.Prelude.{◌≡◌, ◌≢◌, inl, inr, refl, List, [], ◌∷◌, Option, none, some, arith, Option-cases}
use sawos.Text.{Text, codes, join}
use sawos.Text.Format.{Fields}
use sawos.Toolchain.{Toolchain, Result, ok, err, os_error, truthy, no_toolchain, ◌>>=◌}
use sawos.Toolchain.Pin.{read_pin}
use sawos.Toolchain.Os.{Os, Disk}
use sawos.Toolchain.Fetch.{fetch}
use sawos.Toolchain.Version.{check_version, required, probe_version, check_version-pinned}
use sawos.Toolchain.Resolve.{
  Env, resolve_root, named_argv, named_by, env_refusal, fetch_refusal, pinned_sha, fetch_or_refuse,
  on_path, fetched, named_or_path, resolve, or_else,
}

-- How a toolchain was answered: by what the operator named, by the PATH, or by the fetch.
pub data Answered {C : Type 0} (os : Os C) (env : Env) (consumer_root : Text) (disk : Disk C)
    (pin : Option Fields) (root : Option Text) (tc : Toolchain) : Type 0 where
  named :
      tc.sawc_argv ≢ []
      → tc.sawc_argv ≡ named_argv os env consumer_root disk root
      → tc.root ≡ root
      → tc.notes ≡ []
      → Answered os env consumer_root disk pin root tc
  on_the_path :
      (sawc : Text)
      → named_argv os env consumer_root disk root ≡ []
      → os.which (codes "sawc") ≡ some sawc
      → tc.sawc_argv ≡ sawc ∷ []
      → tc.root ≡ none
      → ((want : Text) → required pin ≡ some want → probe_version os (sawc ∷ []) ≡ some want)
      → Answered os env consumer_root disk pin root tc
  fetched_at :
      (sha path : Text)
      → named_argv os env consumer_root disk root ≡ []
      → os.which (codes "sawc") ≡ none
      → pinned_sha os env consumer_root pin ≡ some sha
      → (fetch os env sha disk).0 ≡ ok path
      → tc.root ≡ some path
      → Answered os env consumer_root disk pin root tc

module _ {C : Type 0} (os : Os C) (env : Env) (consumer_root : Text) (disk : Disk C) where
  fetched-Answered :
      (pin : Option Fields) (root : Option Text) (tc : Toolchain) (sha : Text)
      (r : Result Text × Disk C)
      → named_argv os env consumer_root disk root ≡ []
      → os.which (codes "sawc") ≡ none
      → pinned_sha os env consumer_root pin ≡ some sha
      → (fetch os env sha disk).0 ≡ r.0
      → (fetched os env consumer_root r).0 ≡ ok tc
      → Answered os env consumer_root disk pin root tc
  fetched-Answered pin root tc sha (ok path, d) n w p f h =
      fetched_at sha path n w p f (ground arith)
  fetched-Answered pin root tc sha (err e, d) n w p f h = cc
  fetched-Answered pin root tc sha (os_error, d) n w p f h = cc

  refuse_step :
      (pin : Option Fields)
      → pinned_sha os env consumer_root pin ≡ none
      → fetch_or_refuse os env consumer_root pin disk ≡ (
        err (
            no_toolchain
              (env_refusal os env consumer_root)
              (codes "no `sawc` on your PATH")
              (fetch_refusal os env consumer_root pin)),
        disk,
      )
  unfolding fetch_or_refuse
  refuse_step pin q = rw (q, fetch_or_refuse)

  fetch_step :
      (pin : Option Fields) (sha : Text)
      → pinned_sha os env consumer_root pin ≡ some sha
      → fetch_or_refuse os env consumer_root pin disk
        ≡ fetched os env consumer_root (fetch os env sha disk)
  unfolding fetch_or_refuse
  fetch_step pin sha q = rw (q, fetch_or_refuse)

  fetch_or_refuse-Answered :
      (pin : Option Fields) (root : Option Text) (tc : Toolchain)
      → named_argv os env consumer_root disk root ≡ []
      → os.which (codes "sawc") ≡ none
      → (fetch_or_refuse os env consumer_root pin disk).0 ≡ ok tc
      → Answered os env consumer_root disk pin root tc
  fetch_or_refuse-Answered pin root tc n w h =
      elim (Option-cases (pinned_sha os env consumer_root pin)) [
        | inl q ↦ cc (refuse_step pin q)
        | inr (sha, q) ↦
            fetched-Answered pin root tc sha (fetch os env sha disk) n w q refl
              (rw (fetch_step pin sha q) at h)
      ]

  on_path-none :
      (pin : Option Fields)
      → os.which (codes "sawc") ≡ none
      → on_path os env consumer_root pin disk ≡ fetch_or_refuse os env consumer_root pin disk
  unfolding on_path
  on_path-none pin w = rw (w, on_path)

  abbrev unnamed : Text → Option Text → List Text → Result Toolchain
  unnamed sawc blade notes = ok (record {
    sawc_argv = sawc ∷ [];
    source = codes "PATH";
    root = none;
    blade_bin = blade;
    notes = notes;
  })

  checked-Answered :
      (pin : Option Fields) (root : Option Text) (tc : Toolchain) (sawc : Text)
      (blade : Option Text) (r : Result (List Text))
      → named_argv os env consumer_root disk root ≡ []
      → os.which (codes "sawc") ≡ some sawc
      → check_version os (sawc ∷ []) pin sawc [] ≡ r
      → (r >>= unnamed sawc blade) ≡ ok tc
      → Answered os env consumer_root disk pin root tc
  checked-Answered pin root tc sawc blade (ok notes) n w q h =
      on_the_path sawc n w (cc) (cc)
        (λ want r. ((check_version-pinned os (sawc ∷ []) pin sawc [] notes want r).0 q).0)
  checked-Answered pin root tc sawc blade (err e) n w q h = cc
  checked-Answered pin root tc sawc blade os_error n w q h = cc

  found_on_path-Answered :
      (pin : Option Fields) (root : Option Text) (tc : Toolchain) (sawc : Text)
      → named_argv os env consumer_root disk root ≡ []
      → os.which (codes "sawc") ≡ some sawc
      → (on_path os env consumer_root pin disk).0 ≡ ok tc
      → Answered os env consumer_root disk pin root tc
  unfolding on_path
  found_on_path-Answered pin root tc sawc n w h =
      checked-Answered pin root tc sawc
        (or_else os env consumer_root (truthy (env (codes "BLADE"))) (os.which (codes "blade")))
        (check_version os (sawc ∷ []) pin sawc []) n w refl (rw (w, on_path) at h)

  on_path-Answered :
      (pin : Option Fields) (root : Option Text) (tc : Toolchain)
      → named_argv os env consumer_root disk root ≡ []
      → (on_path os env consumer_root pin disk).0 ≡ ok tc
      → Answered os env consumer_root disk pin root tc
  on_path-Answered pin root tc n h = elim (Option-cases (os.which (codes "sawc"))) [
    | inl w ↦ fetch_or_refuse-Answered pin root tc n w (rw (on_path-none pin w) at h)
    | inr (sawc, w) ↦ found_on_path-Answered pin root tc sawc n w h
  ]

  named_step :
      (pin : Option Fields) (root : Option Text) (tc : Toolchain) (argv : List Text)
      → named_argv os env consumer_root disk root ≡ argv
      → (named_or_path os env consumer_root pin root disk).0 ≡ ok tc
      → Answered os env consumer_root disk pin root tc
  unfolding named_or_path
  named_step pin root tc [] q h = on_path-Answered pin root tc q (rw (q, named_or_path) at h)
  named_step pin root tc (a ∷ argv) q h = named_tc (rw (q, named_or_path) at h)
    where
      named_tc :
          ok (record {
            sawc_argv = a ∷ argv;
            source = join (codes " + ") (named_by os env consumer_root root);
            root = root;
            blade_bin = env (codes "BLADE");
            notes = [];
          })
            ≡ ok tc
          → Answered os env consumer_root disk pin root tc
      named_tc e = named (ground arith) (cc) (cc) (cc)

  named_or_path-Answered :
      (pin : Option Fields) (root : Option Text) (tc : Toolchain)
      → (named_or_path os env consumer_root pin root disk).0 ≡ ok tc
      → Answered os env consumer_root disk pin root tc
  named_or_path-Answered pin root tc h =
      named_step pin root tc (named_argv os env consumer_root disk root) refl h

  root_step :
      (pin_lines : Option (List Text)) (pin : Option Fields) (tc : Toolchain)
      (root : Result (Option Text))
      → read_pin pin_lines ≡ ok pin
      → resolve_root os env consumer_root disk ≡ root
      → (resolve os env consumer_root pin_lines disk).0 ≡ ok tc
      → (r : Option Text) × (resolve_root os env consumer_root disk ≡ ok r)
        × ((named_or_path os env consumer_root pin r disk).0 ≡ ok tc)
  unfolding resolve
  root_step pin_lines pin tc (ok r) p q h = (r, q, rw (p, q) at h)
  root_step pin_lines pin tc (err e) p q h =
      let no : ◌≡◌ {A = Result Toolchain} (err e) (ok tc) = rw (p, q) at h in cc
  root_step pin_lines pin tc os_error p q h =
      let no : ◌≡◌ {A = Result Toolchain} os_error (ok tc) = rw (p, q) at h in cc

  pin_step :
      (pin_lines : Option (List Text)) (tc : Toolchain) (read : Result (Option Fields))
      → read_pin pin_lines ≡ read
      → (resolve os env consumer_root pin_lines disk).0 ≡ ok tc
      → (pin : Option Fields) × (read_pin pin_lines ≡ ok pin)
  unfolding resolve
  pin_step pin_lines tc (ok pin) p h = (pin, p)
  pin_step pin_lines tc (err e) p h =
      let no : ◌≡◌ {A = Result Toolchain} (err e) (ok tc) = rw p at h in cc
  pin_step pin_lines tc os_error p h =
      let no : ◌≡◌ {A = Result Toolchain} os_error (ok tc) = rw p at h in cc

  -- A toolchain is answered only with a pin that reads and a root that is settled, and by exactly the
  -- first of the steps that has something: what the operator named, with that root; else the `sawc` on
  -- the PATH, which names itself with the pinned version if one is pinned; else the commit of the pin
  -- that the fetch brought, with its tree as the root.
  pub resolve-Answered :
      (pin_lines : Option (List Text)) (tc : Toolchain)
      → (resolve os env consumer_root pin_lines disk).0 ≡ ok tc
      → (pin : Option Fields) × (root : Option Text) × (read_pin pin_lines ≡ ok pin)
        × (resolve_root os env consumer_root disk ≡ ok root)
        × Answered os env consumer_root disk pin root tc
  resolve-Answered pin_lines tc h =
      let (pin, p) = pin_step pin_lines tc (read_pin pin_lines) refl h in
      let (root, q, a) =
        root_step pin_lines pin tc (resolve_root os env consumer_root disk) p refl h in
      (pin, root, p, q, named_or_path-Answered pin root tc a)
