-- ===== src/Build/Fresh.antt =====
-- The image that `_build_root_image` of tools/sos_runner.py returns.
use mathlib.Core.Bool.{false≢true}
use sawos.Prelude.{
  ◌≡◌, ◌≢◌, ◌⊎◌, ◌∙◌, inl, inr, refl, sym, Bool, true, false, not, List, [], ◌∷◌, none, arith, ◌==◌,
  if◌then◌else◌, all, In, Option-cases,
}
use sawos.Text.{Text}
use sawos.Text.Equality.{text_eq_refl}
use sawos.Paths.{◌/+◌}
use sawos.Arch.{Arch}
use sawos.Toolchain.{Toolchain}
use sawos.Build.{Files, put_file, Built, built, tool_error, escaped, Command, Host, proceed, stay}
use sawos.Build.Image.{
  is_image, images_of, remove_all, out_dir, blade_command, the_image, build_root_image, first_image,
  root_image_path,
}

-- A name of a file in a directory.
unfoldable pub is_file_name : Text → Bool
is_file_name = all λ c. not (c == b'/')

-- `os.listdir` names the files that stand in the directory, in every state that the disk may be in:
-- these are closed under the removal of a file, and under what commands do.
pub record ListsFiles (host : Host) (dir : Text) : Type 1 where
  pub MayBe : Files → Type 0
  pub after_removal : (p : Text) (f : Files) → MayBe f → MayBe (put_file p none f)
  pub after_command : (c : Command) (f : Files) → MayBe f → MayBe (host.exec c f).1
  pub lists : (f : Files) (n : Text) → MayBe f → In n (host.list_dir dir f) → f (dir /+ n) ≢ none
  pub listed :
      (f : Files) (n : Text)
      → MayBe f
      → is_file_name n ≡ true
      → f (dir /+ n) ≢ none
      → In n (host.list_dir dir f)

kept-In :
    (m n : Text) (ns : List Text) (c : Bool)
    → In n (if c then m ∷ ns else ns)
    → is_image m ≡ c
    → (n ≡ m) × (is_image n ≡ true) ⊎ In n ns
kept-In m n ns true (inl e) h = inl (e, rw e h)
kept-In m n ns true (inr i) h = inr i
kept-In m n ns false i h = inr i

In-kept :
    (m n : Text) (ns : List Text) (c : Bool)
    → (n ≡ m) × (is_image n ≡ true) ⊎ In n ns
    → is_image m ≡ c
    → In n (if c then m ∷ ns else ns)
In-kept m n ns true (inl (e, h)) q = inl e
In-kept m n ns true (inr i) q = inr i
In-kept m n ns false (inl (e, h)) q = absurd (false≢true (sym q ∙ rw (← e) h))
In-kept m n ns false (inr i) q = i

images_of-In : (ns : List Text) (n : Text) → In n (images_of ns) → In n ns × (is_image n ≡ true)
unfolding images_of
images_of-In [] n i = absurd i
images_of-In (m ∷ ns) n i = elim (kept-In m n (images_of ns) (is_image m) i refl) [
  | inl (e, h) ↦ (inl e, h)
  | inr k ↦ let (j, h) = images_of-In ns n k in (inr j, h)
]

In-images_of : (ns : List Text) (n : Text) → In n ns → is_image n ≡ true → In n (images_of ns)
unfolding images_of
In-images_of [] n i h = absurd i
In-images_of (m ∷ ns) n (inl e) h = In-kept m n (images_of ns) (is_image m) (inl (e, h)) refl
In-images_of (m ∷ ns) n (inr i) h =
    In-kept m n (images_of ns) (is_image m) (inr (In-images_of ns n i h)) refl

remove_all-absent :
    (dir : Text) (ns : List Text) (f : Files) (p : Text) → f p ≡ none → remove_all dir ns f p ≡ none
unfolding remove_all put_file
remove_all-absent dir [] f p h = h
remove_all-absent dir (n ∷ ns) f p h =
    remove_all-absent dir ns (put_file (dir /+ n) none f) p (ground (arith, h))

remove_all-removed :
    (dir : Text) (ns : List Text) (f : Files) (n : Text)
    → In n ns
    → remove_all dir ns f (dir /+ n) ≡ none
unfolding remove_all put_file
remove_all-removed dir [] f n i = absurd i
remove_all-removed dir (m ∷ ns) f n (inl e) =
    remove_all-absent dir ns (put_file (dir /+ m) none f) (dir /+ n)
      (rw (← e) (rw (text_eq_refl (dir /+ n), if◌then◌else◌) refl))
remove_all-removed dir (m ∷ ns) f n (inr i) =
    remove_all-removed dir ns (put_file (dir /+ m) none f) n i

module _ (host : Host) (dir : Text) (l : ListsFiles host dir) where
  remove_all-MayBe : (ns : List Text) (f : Files) → l.MayBe f → l.MayBe (remove_all dir ns f)
  unfolding remove_all
  remove_all-MayBe [] f h = h
  remove_all-MayBe (n ∷ ns) f h =
      remove_all-MayBe ns (put_file (dir /+ n) none f) (l.after_removal (dir /+ n) f h)

  -- What the sweep leaves: no image in the directory.
  swept-clean :
      (f : Files) (n : Text)
      → l.MayBe f
      → is_file_name n ≡ true
      → is_image n ≡ true
      → remove_all dir (images_of (host.list_dir dir f)) f (dir /+ n) ≡ none
  swept-clean f n may fn im = elim (Option-cases (f (dir /+ n))) [
    | inl e ↦ remove_all-absent dir (images_of (host.list_dir dir f)) f (dir /+ n) e
    | inr (content, e) ↦
        remove_all-removed dir (images_of (host.list_dir dir f)) f n
          (In-images_of (host.list_dir dir f) n (l.listed f n may fn λ q. absurd (cc (e, q))) im)
  ]

-- The list has just the one image that is returned.
the_image-only :
    (dir : Text) (ns : List Text) (path : Text)
    → the_image dir ns ≡ built path
    → (n : Text) × (ns ≡ n ∷ []) × (path ≡ dir /+ n)
the_image-only dir [] path e = cc
the_image-only dir (n ∷ []) path e = (n, refl, cc)
the_image-only dir (n ∷ m ∷ ns) path e = cc

-- The path is that of the one image in the directory, which was not there when the command started.
pub record IsFresh (host : Host) (cmd : Command) (dir path : Text) (after : Files) : Type 0 where
  name : Text
  named : path ≡ dir /+ name
  image : is_image name ≡ true
  there : after path ≢ none
  only : (n : Text) → is_file_name n ≡ true → is_image n ≡ true → after (dir /+ n) ≢ none → n ≡ name
  before : Files
  clean : (n : Text) → is_file_name n ≡ true → is_image n ≡ true → before (dir /+ n) ≡ none
  ran : host.exec cmd before ≡ (built tt, after)

module _ (host : Host) (dir : Text) (l : ListsFiles host dir) where
  only_image_unique :
      (f : Files) (n m : Text)
      → l.MayBe f
      → images_of (host.list_dir dir f) ≡ n ∷ []
      → is_file_name m ≡ true
      → is_image m ≡ true
      → f (dir /+ m) ≢ none
      → m ≡ n
  only_image_unique f n m may e fm im there =
      let i : In m (n ∷ []) =
        rw e at (In-images_of (host.list_dir dir f) m (l.listed f m may fm there) im) in
      elim i [ inl q ↦ q | inr x ↦ absurd x ]

  -- After the command, the one image is looked up.
  looked-IsFresh :
      (cmd : Command) (path : Text) (before : Files) (r : Built (Unit {0})) (after : Files)
      → l.MayBe after
      → ((n : Text) → is_file_name n ≡ true → is_image n ≡ true → before (dir /+ n) ≡ none)
      → host.exec cmd before ≡ (r, after)
      → let looked =
          proceed r after (λ f. (the_image dir (images_of (host.list_dir dir f)), f)) stay in
        looked.0 ≡ built path
        → IsFresh host cmd dir path looked.1
          × (first_image host dir (images_of (host.list_dir dir looked.1)) ≡ built path)
  looked-IsFresh cmd path before tool_error after may clean ran e = cc
  looked-IsFresh cmd path before escaped after may clean ran e = cc
  looked-IsFresh cmd path before (built _) after may clean ran e =
      let (n, only, at) = the_image-only dir (images_of (host.list_dir dir after)) path e in
      let i : In n (images_of (host.list_dir dir after)) = rw only (inl refl) in
      let (listed, im) = images_of-In (host.list_dir dir after) n i in
      (
        record {
          name = n;
          named = at;
          image = im;
          there = rw at (l.lists after n may listed);
          only = λ m fm imm there. only_image_unique after n m may only fm imm there;
          before = before;
          clean = clean;
          ran = ran;
        },
        rw only (rw at refl),
      )

module _ (host : Host) (tc : Toolchain) (blade_bin pkg_dir : Text) (arch : Arch) (clang : Text)
    (l : ListsFiles host (out_dir pkg_dir arch)) where
  -- Where `_build_root_image` returns a path, the build of the package made it: the directory holds
  -- this image and no other, and held none when Blade was started. `_root_image_path` finds the same
  -- path afterwards.
  pub build_root_image-IsFresh :
      (f : Files)
      → l.MayBe f
      → (path : Text) → (build_root_image host tc blade_bin pkg_dir arch clang f).0 ≡ built path
      → let after = (build_root_image host tc blade_bin pkg_dir arch clang f).1 in
        IsFresh host
          (blade_command blade_bin pkg_dir arch tc clang)
          (out_dir pkg_dir arch)
          path
          after
        × (root_image_path host pkg_dir arch after ≡ built path)
  unfolding build_root_image root_image_path
  build_root_image-IsFresh f may path e =
      let dir = out_dir pkg_dir arch in
      let cmd = blade_command blade_bin pkg_dir arch tc clang in
      let swept = remove_all dir (images_of (host.list_dir dir f)) f in
      looked-IsFresh host dir l cmd path swept (host.exec cmd swept).0 (host.exec cmd swept).1
        (l.after_command cmd swept
          (remove_all-MayBe host dir l (images_of (host.list_dir dir f)) f may))
        (λ n. swept-clean host dir l f n may) refl e
