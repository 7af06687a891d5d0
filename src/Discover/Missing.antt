-- ===== src/Discover/Missing.antt =====
-- What `_probe_tools` of tools/sos_runner.py answers.
use mathlib.Core.Path.{subst}
use sawos.Prelude.{
  ◌≡◌, ◌≢◌, ◌↔◌, ◌⊎◌, inl, inr, refl, sym, ap, ◌∙◌, append_assoc, append-nil, List, [], ◌∷◌, ◌++◌,
  Option, none, some, All, All-map, All-append, All-In, In, In-left, In-right,
}
use sawos.Text.{Text, codes, text_eq}
use sawos.Text.Format.{field}
use sawos.Arch.{Arch}
use sawos.Arch.Table.{arches}
use sawos.Toolchain.{truthy}
use sawos.Build.{Built, built, tool_error, escaped}
use sawos.Discover.{
  Machine, install_hints, candidates, find_clang, missing_qemus, qemus, missing_if_none, hint_lines,
  Probed, found, missing, key_error, told, lld, decide, after_clang, probe_tools,
}
use sawos.Discover.First.{IsFirst, find_clang-IsFirst}

abbrev HasHint : Text → Type 0
HasHint tool = (hint : Text) × (field install_hints tool ≡ some hint)

hint_lines-some :
    (tools : List Text) → All HasHint tools → (lines : List Text) × (hint_lines tools ≡ some lines)
unfolding hint_lines
hint_lines-some [] h = ([], refl)
hint_lines-some (tool ∷ tools) ((hint, e), hs) =
    let (lines, q) = hint_lines-some tools hs in rw (e, hint_lines) (rw (q, hint_lines) (_, refl))

arches-HasHint : (root : Text) → All (λ a. HasHint a.qemu) (arches root)
unfolding field text_eq
arches-HasHint root = ((_, refl), ((_, refl), ((_, refl), tt)))

In-append : {A : Type 0} (xs ys : List A) (x : A) → In x (xs ++ ys) → In x xs ⊎ In x ys
In-append [] ys x i = inr i
In-append (y ∷ xs) ys x (inl e) = inl (inl e)
In-append (y ∷ xs) ys x (inr i) = elim (In-append xs ys x i) [ inl j ↦ inl (inr j) | inr j ↦ inr j ]

In-missing_if_none :
    (tool : Text) (o : Option Text) (t : Text)
    → In t (missing_if_none tool o)
    → (t ≡ tool) × (o ≡ none)
In-missing_if_none tool none t (inl e) = (e, refl)
In-missing_if_none tool none t (inr x) = absurd x
In-missing_if_none tool (some _) t i = absurd i

missing_if_none-In : (tool : Text) (o : Option Text) → o ≡ none → In tool (missing_if_none tool o)
missing_if_none-In tool none e = inl refl
missing_if_none-In tool (some x) e = cc

missing_if_none-nil :
    (tool : Text) (o : Option Text) (rest : List Text)
    → missing_if_none tool o ++ rest ≡ []
    → ((x : Text) × (o ≡ some x)) × (rest ≡ [])
missing_if_none-nil tool none rest e = cc
missing_if_none-nil tool (some x) rest e = ((x, refl), e)

missing_if_none-HasHint :
    (tool : Text) (o : Option Text) → HasHint tool → All HasHint (missing_if_none tool o)
missing_if_none-HasHint tool none h = (h, tt)
missing_if_none-HasHint tool (some x) h = tt

hint_lld : HasHint (codes "ld.lld")
unfolding field text_eq
hint_lld = (_, refl)

hint_clang : HasHint (codes "clang")
unfolding field text_eq
hint_clang = (_, refl)

module _ (root : Text) (m : Machine) where
  abbrev NoQemu : Arch → Type 0
  NoQemu a = truthy (m.which a.qemu) ≡ none

  In-missing_qemus :
      (xs : List Arch) (t : Text)
      → In t (missing_qemus root m xs)
      → (a : Arch) × In a xs × (t ≡ a.qemu) × NoQemu a
  unfolding missing_qemus
  In-missing_qemus [] t i = absurd i
  In-missing_qemus (a ∷ xs) t i =
      elim (In-append (missing_if_none a.qemu (truthy (m.which a.qemu))) _ t i) [
        | inl j ↦
            let (e, q) = In-missing_if_none a.qemu (truthy (m.which a.qemu)) t j in
            (a, inl refl, e, q)
        | inr j ↦ let (b, k, e, q) = In-missing_qemus xs t j in (b, inr k, e, q)
      ]

  missing_qemus-In :
      (xs : List Arch) (a : Arch) → In a xs → NoQemu a → In a.qemu (missing_qemus root m xs)
  unfolding missing_qemus
  missing_qemus-In [] a i e = absurd i
  missing_qemus-In (b ∷ xs) a (inl q) e =
      In-left (missing_if_none b.qemu (truthy (m.which b.qemu))) _ a.qemu
        (rw q (missing_if_none-In b.qemu (truthy (m.which b.qemu)) (rw q at e)))
  missing_qemus-In (b ∷ xs) a (inr i) e =
      In-right (missing_if_none b.qemu (truthy (m.which b.qemu))) _ a.qemu
        (missing_qemus-In xs a i e)

  missing_qemus-nil :
      (xs : List Arch) (rest : List Text)
      → missing_qemus root m xs ++ rest ≡ []
      → All (λ a. (q : Text) × (truthy (m.which a.qemu) ≡ some q)) xs × (rest ≡ [])
  unfolding missing_qemus
  missing_qemus-nil [] rest h = (tt, h)
  missing_qemus-nil (a ∷ xs) rest h =
      let (found_here, q) =
        missing_if_none-nil a.qemu (truthy (m.which a.qemu)) (missing_qemus root m xs ++ rest)
          (sym (append_assoc (missing_if_none a.qemu (truthy (m.which a.qemu))) _ rest) ∙ h) in
      let (others, r) = missing_qemus-nil xs rest q in ((found_here, others), r)

  -- The tool is not found.
  abbrev pub IsAbsent : List Arch → Text → Type 0
  IsAbsent xs t =
      ((a : Arch) × In a xs × (t ≡ a.qemu) × NoQemu a)
      ⊎ (((t ≡ codes "ld.lld") × (lld root m xs ≡ none))
          ⊎ ((t ≡ codes "clang") × (find_clang root m xs ≡ built none)))

  -- All tools are found, or just the absent ones are named, each with its hint, or a probe raised.
  abbrev pub IsReport : List Arch → Built Probed → Type 0
  IsReport xs (built (found qs l c)) =
      (qs ≡ qemus root m xs)
      × All (λ a. (q : Text) × (truthy (m.which a.qemu) ≡ some q)) xs
      × (lld root m xs ≡ some l)
      × (find_clang root m xs ≡ built (some c))
  IsReport xs (built (missing lines)) =
      (tools : List Text) × (hint_lines tools ≡ some lines)
      × (tools ≢ [])
      × ((t : Text) → In t tools ↔ IsAbsent xs t)
  IsReport xs (built key_error) = ⊥
  IsReport xs tool_error = ⊥
  IsReport xs escaped = find_clang root m xs ≡ escaped

  abbrev tools_of : List Arch → Option Text → List Text
  tools_of xs clang =
      missing_qemus root m xs
      ++ (missing_if_none (codes "ld.lld") (lld root m xs) ++ missing_if_none (codes "clang") clang)

  tools_of-IsAbsent :
      (xs : List Arch) (clang : Option Text) (t : Text)
      → find_clang root m xs ≡ built clang
      → In t (tools_of xs clang) ↔ IsAbsent xs t
  tools_of-IsAbsent xs clang t e =
      let no_lld = missing_if_none (codes "ld.lld") (lld root m xs) in
      let no_clang = missing_if_none (codes "clang") clang in
      let qs = missing_qemus root m xs in
      (
        λ i. elim (In-append qs (no_lld ++ no_clang) t i) [
          | inl j ↦ inl (In-missing_qemus xs t j)
          | inr j ↦ elim (In-append no_lld no_clang t j) [
            | inl k ↦ inr (inl (In-missing_if_none (codes "ld.lld") (lld root m xs) t k))
            | inr k ↦
                let (q, r) = In-missing_if_none (codes "clang") clang t k in
                inr (inr (q, e ∙ ap built r))
          ]
        ],
        λ h. elim h [
          | inl (a, i, q, n) ↦
              rw q (In-left qs (no_lld ++ no_clang) a.qemu (missing_qemus-In xs a i n))
          | inr (inl (q, n)) ↦ rw q (
              In-right qs _ _
                (In-left no_lld no_clang _ (missing_if_none-In (codes "ld.lld") (lld root m xs) n)))
          | inr (inr (q, n)) ↦
              let none_found : clang ≡ none = cc in
              rw q (
                In-right qs _ _ (
                  In-right no_lld no_clang _ (missing_if_none-In (codes "clang") clang none_found)))
        ],
      )

  missing_qemus-HasHint :
      (xs : List Arch) → All (λ a. HasHint a.qemu) xs → All HasHint (missing_qemus root m xs)
  unfolding missing_qemus
  missing_qemus-HasHint [] h = tt
  missing_qemus-HasHint (a ∷ xs) (h, hs) =
      All-append HasHint (missing_if_none a.qemu (truthy (m.which a.qemu))) _
        (missing_if_none-HasHint a.qemu (truthy (m.which a.qemu)) h) (missing_qemus-HasHint xs hs)

  tools_of-HasHint :
      (xs : List Arch) (clang : Option Text)
      → All (λ a. HasHint a.qemu) xs
      → All HasHint (tools_of xs clang)
  tools_of-HasHint xs clang h =
      All-append HasHint (missing_qemus root m xs) _ (missing_qemus-HasHint xs h) (
        All-append HasHint (missing_if_none (codes "ld.lld") (lld root m xs)) _
          (missing_if_none-HasHint (codes "ld.lld") _ hint_lld)
          (missing_if_none-HasHint (codes "clang") clang hint_clang))

  tools_of-nil :
      (xs : List Arch) (clang : Option Text)
      → [] ≡ tools_of xs clang
      → All (λ a. (q : Text) × (truthy (m.which a.qemu) ≡ some q)) xs
        × ((l : Text) × (lld root m xs ≡ some l))
        × ((c : Text) × (clang ≡ some c))
  tools_of-nil xs clang e =
      let (qs, r) = missing_qemus-nil xs _ (sym e) in
      let (l, s) = missing_if_none-nil (codes "ld.lld") (lld root m xs) _ r in
      let (c, _) =
        missing_if_none-nil (codes "clang") clang []
          (append-nil (missing_if_none (codes "clang") clang) ∙ s) in
      (qs, l, c)

  decided-IsReport :
      (xs : List Arch) (tools : List Text) (l clang : Option Text)
      → All (λ a. HasHint a.qemu) xs
      → find_clang root m xs ≡ built clang
      → lld root m xs ≡ l
      → tools ≡ tools_of xs clang
      → IsReport xs (built (decide root m xs tools l clang))
  decided-IsReport xs [] none clang h e el t = let (_, (_, q), _) = tools_of-nil xs clang t in cc
  decided-IsReport xs [] (some l) none h e el t = let (_, _, (_, q)) = tools_of-nil xs none t in cc
  decided-IsReport xs [] (some l) (some c) h e el t =
      let (qs, _, _) = tools_of-nil xs (some c) t in (refl, qs, el, e)
  decided-IsReport xs (tool ∷ tools) l clang h e el t =
      let hints : All HasHint (tool ∷ tools) =
        subst (All HasHint) (sym t) (tools_of-HasHint xs clang h) in
      let (lines, q) = hint_lines-some (tool ∷ tools) hints in
      rw (q, told)
        (
          tool ∷ tools,
          q,
          (λ x. cc),
          λ u. subst (λ ts. In u ts ↔ IsAbsent xs u) (sym t) (tools_of-IsAbsent xs clang u e),
        )

  after_clang-IsReport :
      (xs : List Arch) (r : Built (Option Text))
      → All (λ a. HasHint a.qemu) xs
      → find_clang root m xs ≡ r
      → IsFirst root m xs (candidates root m) r
      → IsReport xs (after_clang root m xs r)
  after_clang-IsReport xs (built clang) h e f =
      decided-IsReport xs (tools_of xs clang) (lld root m xs) clang h e refl refl
  after_clang-IsReport xs tool_error h e f = f
  after_clang-IsReport xs escaped h e f = e

  -- On the architectures of the table, or some of them: the tools that are answered are those that
  -- were found, one emulator for each architecture; where something is missing, the report names just
  -- what is missing, each with the hint of how to install it, and none is without one.
  pub probe_tools-IsReport :
      (xs : List Arch) → All (λ a. In a (arches root)) xs → IsReport xs (probe_tools root m xs)
  unfolding probe_tools
  probe_tools-IsReport xs h =
      after_clang-IsReport xs (find_clang root m xs)
        (All-map (λ a i. All-In (λ a. HasHint a.qemu) (arches root) a (arches-HasHint root) i) xs h)
        refl (find_clang-IsFirst root m xs)
