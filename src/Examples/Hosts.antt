-- ===== src/Examples/Hosts.antt =====
-- The build of a package, the emulator and the search for the tools, at concrete inputs.
use sawos.Prelude.{
  ◌≡◌, ◌≢◌, ◌∙◌, inl, inr, refl, sym, true, false, List, [], ◌∷◌, Option, none, some, arith, In,
  Bool-cases, if◌then◌else◌,
}
use sawos.Prelude.Int.{pos}
use sawos.Text.{Text, codes, text_eq, starts_with, ends_with}
use sawos.Text.Equality.{text_eq-eq}
use sawos.Paths.{◌/+◌}
use sawos.Arch.{Arch}
use sawos.Arch.Table.{riscv32}
use sawos.Build.{Files, put_file, Built, built, tool_error, escaped, Host}
use sawos.Build.Names.{as_prefix, join-as_prefix, append-cancel}
use sawos.Build.Image.{
  out_dir, blade_command, build_root_image, root_image_path, images_of, remove_all,
}
use sawos.Build.Fresh.{is_file_name, ListsFiles, IsFresh, build_root_image-IsFresh}
use sawos.Run.{decoded}
use sawos.Emulator.{
  State, start, Steps, begin, later, typing, ended, types, reads, writes, ends, returns,
}
use sawos.Emulator.Typed.{IsRun, Steps-IsRun}
use sawos.Discover.{Machine, candidates, find_clang, probe_tools}
use sawos.Discover.First.{IsFirst, find_clang-IsFirst}
use sawos.Discover.Missing.{IsReport, probe_tools-IsReport}
use sawos.Examples.Builds.{checkout}

-- A package manager that leaves one image, in one directory.
module _ (dir : Text) where
  abbrev image_name : Text
  image_name = codes "a.sosimg"

  abbrev names_of : Option Text → List Text
  names_of none = []
  names_of (some _) = image_name ∷ []

  abbrev packing : Host
  packing = record {
    exec = λ c f. (built tt, put_file (dir /+ image_name) (some (codes "image")) f);
    list_dir = λ d f. names_of (f (dir /+ image_name));
  }

  -- Nothing else stands in the directory.
  abbrev OnlyImage : Files → Type 0
  OnlyImage f = (n : Text) → is_file_name n ≡ true → f (dir /+ n) ≢ none → n ≡ image_name

  file-relative : (n : Text) → is_file_name n ≡ true → starts_with (codes "/") n ≡ false
  unfolding is_file_name starts_with
  file-relative [] h = refl
  file-relative (c ∷ n) h = ground arith

  image-is_file_name : is_file_name image_name ≡ true
  unfolding is_file_name
  image-is_file_name = refl

  same_name : (n : Text) → is_file_name n ≡ true → (dir /+ image_name) ≡ (dir /+ n) → n ≡ image_name
  same_name n h e = sym (
      append-cancel (as_prefix dir) image_name n (
        sym (join-as_prefix dir image_name (file-relative image_name image-is_file_name))
        ∙ (e ∙ join-as_prefix dir n (file-relative n h))))

  put-OnlyImage :
      (p : Text) (content : Option Text) (f : Files)
      → ((n : Text) → is_file_name n ≡ true → p ≡ dir /+ n → content ≢ none → n ≡ image_name)
      → OnlyImage f
      → OnlyImage (put_file p content f)
  unfolding put_file
  put-OnlyImage p content f k h n fn there = elim (Bool-cases (text_eq p (dir /+ n))) [
    | inl e ↦ k n fn (text_eq-eq p (dir /+ n) e) (rw (e, if◌then◌else◌) at there)
    | inr e ↦ h n fn (rw (e, if◌then◌else◌) at there)
  ]

  In-names_of : (o : Option Text) (n : Text) → In n (names_of o) → (n ≡ image_name) × (o ≢ none)
  In-names_of none n i = absurd i
  In-names_of (some x) n (inl e) = (e, λ q. cc)
  In-names_of (some x) n (inr i) = absurd i

  names_of-In : (o : Option Text) → o ≢ none → In image_name (names_of o)
  names_of-In none h = absurd (h refl)
  names_of-In (some x) h = inl refl

  packing-ListsFiles : ListsFiles packing dir
  packing-ListsFiles = record {
    MayBe = OnlyImage;
    after_removal = λ p f. put-OnlyImage p none f (λ n fn e q. absurd (q refl));
    after_command = λ c f. put-OnlyImage (dir /+ image_name) _ f (λ n fn e q. same_name n fn e);
    lists = λ f n may i. let (e, there) = In-names_of (f (dir /+ image_name)) n i in rw e there;
    listed = λ f n may fn there.
        let e = may n fn there in rw e (names_of-In (f (dir /+ image_name)) (rw e at there));
  }

abbrev pkg_dir : Text
pkg_dir = codes "/r/root"

abbrev board : Arch
board = riscv32 (codes "/r")

abbrev images_dir : Text
images_dir = out_dir pkg_dir board

abbrev no_files : Files
no_files p = none

abbrev packed : Built Text × Files
packed =
    build_root_image (packing images_dir) checkout (codes "blade") pkg_dir board (codes "clang")
      no_files

packed_path : packed.0 ≡ built (images_dir /+ codes "a.sosimg")
unfolding build_root_image images_of remove_all put_file text_eq ends_with starts_with ◌/+◌
packed_path = refl

build_root_image-IsFresh_example :
    IsFresh
      (packing images_dir)
      (blade_command (codes "blade") pkg_dir board checkout (codes "clang"))
      images_dir
      (images_dir /+ codes "a.sosimg")
      packed.1
    × (root_image_path (packing images_dir) pkg_dir board packed.1
        ≡ built (images_dir /+ codes "a.sosimg"))
unfolding packing-ListsFiles
build_root_image-IsFresh_example =
    build_root_image-IsFresh (packing images_dir) checkout (codes "blade") pkg_dir board
      (codes "clang") (packing-ListsFiles images_dir) no_files (λ n fn there. absurd (there refl))
      (images_dir /+ codes "a.sosimg") packed_path

-- A guest that reads one character, echoes it and ends.
abbrev answered : State
answered = record {
  typist = typing [];
  pipe = [];
  received = codes "a";
  written = codes "a";
  guest = ended (pos 0);
  returned =
      some (built (record { status = some (pos 0); out = decoded (codes "a"); timed_out = false }));
}

echoed : Steps some (start (some (codes "a"))) answered
echoed =
    later
      (later
        (later (later (later begin (types b'a' [] refl refl)) (reads b'a' [] refl refl))
          (writes (codes "a") refl))
        (ends (pos 0) refl))
      (returns (pos 0) refl refl)

Steps-IsRun_example : IsRun some (some (codes "a")) answered
Steps-IsRun_example = Steps-IsRun some (some (codes "a")) answered echoed

-- A host with no `ld.lld`, and a clang that refuses the first architecture.
abbrev pub bare_host : Machine
bare_host = record {
  sos_clang = some (codes "/opt/clang");
  which = λ name. if text_eq name (codes "ld.lld") then none else some name;
  exists = λ path. true;
  probe = λ argv. elim argv [
    | [] ↦ escaped
    | c ∷ _ ↦ if text_eq c (codes "clang") then built tt else tool_error
  ];
}

find_clang-IsFirst_example :
    IsFirst
      (codes "/r")
      bare_host
      (board ∷ [])
      (candidates (codes "/r") bare_host)
      (find_clang (codes "/r") bare_host (board ∷ []))
find_clang-IsFirst_example = find_clang-IsFirst (codes "/r") bare_host (board ∷ [])

probe_tools-IsReport_example :
    IsReport (codes "/r") bare_host (board ∷ []) (probe_tools (codes "/r") bare_host (board ∷ []))
probe_tools-IsReport_example =
    probe_tools-IsReport (codes "/r") bare_host (board ∷ []) (inl refl, tt)
