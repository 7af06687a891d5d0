-- ===== src/Run/Images.antt =====
-- The loop of `_run_arch` of tools/sos_runner.py that puts the paths of the images into the cases.
use sawos.Prelude.{◌≡◌, ◌↔◌, refl, List, [], ◌∷◌, Option, none, some, All}
use sawos.Text.{Text}
use sawos.Arch.{Arch}
use sawos.Case.{Case}
use sawos.Build.{Built, built, tool_error, escaped}
use sawos.Run.Packages.{OfRoot, OfPackages}
use sawos.Run.{Tools, paths_found, root_path_found, images_found, and_built}

pub and_built_iff :
    (r rest : Built (Unit {0}))
    → (and_built r rest ≡ built tt) ↔ ((r ≡ built tt) × (rest ≡ built tt))
and_built_iff (built _) rest = (λ h. (refl, h), λ (_, h). h)
and_built_iff tool_error rest = (λ h. absurd (cc (h)), λ (h, _). absurd (cc (h)))
and_built_iff escaped rest = (λ h. absurd (cc (h)), λ (h, _). absurd (cc (h)))

module _ (tools : Tools) (arch : Arch) where
  abbrev pub IsFound : Text → Type 0
  IsFound p = tools.root_image_path arch p ≡ built tt

  paths_found-All : (ps : List Text) → (paths_found tools arch ps ≡ built tt) ↔ All IsFound ps
  unfolding paths_found
  paths_found-All [] = (λ _. tt, λ _. refl)
  paths_found-All (p ∷ ps) =
      let one = and_built_iff (tools.root_image_path arch p) (paths_found tools arch ps) in
      let rest = paths_found-All ps in
      (λ h. ((one.0 h).0, rest.0 (one.0 h).1), λ (h, hs). one.1 (h, rest.1 hs))

  root_path_found-OfRoot :
      (o : Option Text) → (root_path_found tools arch o ≡ built tt) ↔ OfRoot IsFound o
  root_path_found-OfRoot none = (λ _. tt, λ _. refl)
  root_path_found-OfRoot (some []) = (λ _. tt, λ _. refl)
  root_path_found-OfRoot (some (c ∷ s)) = (λ h. h, λ h. h)

  pub images_found-OfPackages :
      (cs : List Case) → (images_found tools arch cs ≡ built tt) ↔ All (OfPackages IsFound) cs
  unfolding images_found
  images_found-OfPackages [] = (λ _. tt, λ _. refl)
  images_found-OfPackages (c ∷ cs) =
      let root = root_path_found-OfRoot c.root_pkg in
      let kids = paths_found-All c.children in
      let rest = images_found-OfPackages cs in
      let here = and_built_iff (root_path_found tools arch c.root_pkg) _ in
      let behind = and_built_iff (paths_found tools arch c.children) (images_found tools arch cs) in
      (
        λ h.
            let (r, more) = here.0 h in
            let (k, others) = behind.0 more in ((root.0 r, kids.0 k), rest.0 others),
        λ ((r, k), others). here.1 (root.1 r, behind.1 (kids.1 k, rest.1 others)),
      )
