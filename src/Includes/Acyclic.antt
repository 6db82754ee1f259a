-- ===== src/Includes/Acyclic.antt =====
-- The order that resolveXmlIncludeGraph (lib/dialects/xml-include-resolver.js) gives, and what its
-- cycle error says.
use node_red_contrib_mavlink.Common.{
  ℕ, zero, suc, ◌≡◌, ◌⊎◌, inl, inr, refl, sym, ap, ◌∙◌, subst, Bool, true, false, Option, none,
  some, List, [], ◌∷◌, arith, ◌==◌, includes, if_cases, Bool-cases,
}
use mathlib.Core.Option.{some-injective}
use node_red_contrib_mavlink.Includes.{
  FileSystem, Options, Graph, Result, ok, root_not_found, include_not_found, exhausted,
  include_cycle, resolve_include, finish_visit, visit_target, visit_all, visit_names, visit,
  add_target, and_then, resolve_xml_include_graph,
}

abbrev pub In : {A : Type 0} → A → List A → Type 0
In x [] = ⊥
In x (y ∷ ys) = (y ≡ x) ⊎ In x ys

apart : (b : Bool) → b ≡ false → b ≡ true → ⊥
apart b h k = ground (arith, h, k)

includes-cons :
    (x : ℕ) (xs : List ℕ) (y : ℕ) → (x ≡ y) ⊎ (includes xs y ≡ true) → includes (x ∷ xs) y ≡ true
includes-cons x xs y (inl e) = ground (arith, e)
includes-cons x xs y (inr h) = ground (arith, h)

-- Of two files on and off the stack, one in the list and not the other.
not-includes-cons :
    (x y : ℕ) (ys stack : List ℕ)
    → includes stack y ≡ true
    → includes stack x ≡ false
    → includes ys y ≡ false
    → includes (x ∷ ys) y ≡ false
not-includes-cons x y ys stack on off h = elim (Bool-cases (x == y)) [
  | inl e ↦ absurd (
      apart (includes stack x) off
        (subst (λ z. includes stack z ≡ true) {x = y} (ground (arith, e)) on))
  | inr e ↦ ground (arith, e, h)
]

module _ {Name Dir : Type 0} (fs : FileSystem Name Dir) (opts : Options Dir)
    (roots : List Dir) where
  -- The text of `file` names an include that resolves to `target`.
  abbrev pub Includes : ℕ → ℕ → Type 0
  Includes file target =
      (names : List Name) × (fs.read_includes file ≡ some names)
      × (name : Name) × In name names
      × (resolve_include fs opts roots file name ≡ some target)

  pub data Leads (a : ℕ) : ℕ → Type 0 where
    once : {b : ℕ} → Includes a b → Leads a b
    further : {b c : ℕ} → Leads a b → Includes b c → Leads a c

  -- Newest first: behind a file stands all that it includes, and it stands once.
  abbrev pub DependencyFirst : List ℕ → Type 0
  DependencyFirst [] = Unit
  DependencyFirst (file ∷ rest) =
      ((target : ℕ) → Includes file target → includes rest target ≡ true)
      × (includes rest file ≡ false)
      × DependencyFirst rest

  abbrev Grows : List ℕ → List ℕ → Type 0
  Grows xs ys = (x : ℕ) → includes xs x ≡ true → includes ys x ≡ true

  -- No file of the stack is finished.
  abbrev Spares : List ℕ → List ℕ → List ℕ → Type 0
  Spares stack xs ys =
      (x : ℕ) → includes stack x ≡ true → includes xs x ≡ false → includes ys x ≡ false

  abbrev Visited : List ℕ → ℕ → List ℕ → Result Graph → Type 0
  Visited stack file xs (ok g) =
      DependencyFirst g.ordered_files
      × Grows xs g.ordered_files
      × (includes g.ordered_files file ≡ true)
      × Spares stack xs g.ordered_files
      × (includes xs file ≡ false → (rest : List ℕ) × (g.ordered_files ≡ file ∷ rest))
  Visited stack file xs (include_cycle f) = Leads f f
  Visited stack file xs root_not_found = ⊥
  Visited stack file xs include_not_found = Unit
  Visited stack file xs exhausted = Unit

  -- Every include of these names is finished.
  abbrev HasAll : ℕ → List Name → List ℕ → Type 0
  HasAll file names ys =
      (name : Name) (target : ℕ)
      → In name names
      → resolve_include fs opts roots file name ≡ some target
      → includes ys target ≡ true

  abbrev VisitedAll : List ℕ → ℕ → List Name → List ℕ → Result (List ℕ × Graph) → Type 0
  VisitedAll stack file names xs (ok (targets, g)) =
      DependencyFirst g.ordered_files
      × Grows xs g.ordered_files
      × HasAll file names g.ordered_files
      × Spares stack xs g.ordered_files
  VisitedAll stack file names xs (include_cycle f) = Leads f f
  VisitedAll stack file names xs root_not_found = ⊥
  VisitedAll stack file names xs include_not_found = Unit
  VisitedAll stack file names xs exhausted = Unit

  HasAll-cons :
      (file target : ℕ) (name : Name) (names : List Name) (ys : List ℕ)
      → resolve_include fs opts roots file name ≡ some target
      → includes ys target ≡ true
      → HasAll file names ys
      → HasAll file (name ∷ names) ys
  HasAll-cons file target name names ys e has h n t (inl p) k =
      subst (λ x. includes ys x ≡ true)
        (some-injective target t (sym e ∙ ap (λ x. resolve_include fs opts roots file x) p ∙ k)) has
  HasAll-cons file target name names ys e has h n t (inr i) k = h n t i k

  add-Visited :
      (stack : List ℕ) (file target : ℕ) (name : Name) (names : List Name) (xs ys : List ℕ)
      (r : Result (List ℕ × Graph))
      → resolve_include fs opts roots file name ≡ some target
      → includes ys target ≡ true
      → Grows xs ys
      → Spares stack xs ys
      → VisitedAll stack file names ys r
      → VisitedAll stack file (name ∷ names) xs (add_target fs opts target r)
  add-Visited stack file target name names xs ys (ok (targets, g)) e has grows spares v = (
    v.0,
    (λ x h. v.1 x (grows x h)),
    HasAll-cons file target name names g.ordered_files e (v.1 target has) v.2,
    (λ x h k. v.3 x h (spares x h k)),
  )
  add-Visited stack file target name names xs ys (include_cycle f) e has grows spares v = v
  add-Visited stack file target name names xs ys root_not_found e has grows spares v = v
  add-Visited stack file target name names xs ys include_not_found e has grows spares v = tt
  add-Visited stack file target name names xs ys exhausted e has grows spares v = tt

  then-Visited :
      (stack : List ℕ) (file target : ℕ) (name : Name) (names : List Name) (xs : List ℕ)
      (r : Result Graph) (next : Graph → Result (List ℕ × Graph))
      → resolve_include fs opts roots file name ≡ some target
      → Visited stack target xs r
      → ((g : Graph)
          → DependencyFirst g.ordered_files
          → VisitedAll stack file names g.ordered_files (next g))
      → VisitedAll stack file
          (name ∷ names)
          xs
          (add_target fs opts target (and_then fs opts r next))
  then-Visited stack file target name names xs (ok g) next e v k =
      add-Visited stack file target name names xs g.ordered_files (next g) e v.2 v.1 v.3 (k g v.0)
  then-Visited stack file target name names xs (include_cycle f) next e v k = v
  then-Visited stack file target name names xs root_not_found next e v k = v
  then-Visited stack file target name names xs include_not_found next e v k = tt
  then-Visited stack file target name names xs exhausted next e v k = tt

  target-Visited :
      (go : ℕ → Graph → Result Graph) (stack : List ℕ) (file : ℕ) (name : Name) (names : List Name)
      (o : Option ℕ) (g : Graph) (next : Graph → Result (List ℕ × Graph))
      → resolve_include fs opts roots file name ≡ o
      → ((target : ℕ) → o ≡ some target → Visited stack target g.ordered_files (go target g))
      → ((g2 : Graph)
          → DependencyFirst g2.ordered_files
          → VisitedAll stack file names g2.ordered_files (next g2))
      → VisitedAll stack file (name ∷ names) g.ordered_files (visit_target fs opts go o next g)
  target-Visited go stack file name names none g next e v k = tt
  target-Visited go stack file name names (some target) g next e v k =
      then-Visited stack file target name names g.ordered_files (go target g) next e (v target refl)
        k

  all-Visited :
      (go : ℕ → Graph → Result Graph) (stack : List ℕ) (file : ℕ) (names : List Name) (g : Graph)
      → ((target : ℕ) (h : Graph)
          → Includes file target
          → DependencyFirst h.ordered_files
          → Visited stack target h.ordered_files (go target h))
      → ((name : Name) (target : ℕ)
          → In name names
          → resolve_include fs opts roots file name ≡ some target
          → Includes file target)
      → DependencyFirst g.ordered_files
      → VisitedAll stack file names g.ordered_files (visit_all fs opts go roots file names g)
  unfolding visit_all
  all-Visited go stack file [] g visits h d =
      (d, (λ x e. e), (λ name target i e. absurd i), (λ x e k. k))
  all-Visited go stack file (name ∷ names) g visits h d =
      target-Visited go stack file name names (resolve_include fs opts roots file name) g
        (visit_all fs opts go roots file names) refl
        (λ target e. visits target g (h name target (inl refl) e) d)
        (λ g2 d2. all-Visited go stack file names g2 visits (λ n t i. h n t (inr i)) d2)

  deps-HasAll :
      (file : ℕ) (names : List Name) (ys : List ℕ)
      → fs.read_includes file ≡ some names
      → HasAll file names ys
      → (target : ℕ) → Includes file target
      → includes ys target ≡ true
  deps-HasAll file names ys e h target (others, f, name, i, k) =
      h name target (subst (In name) (some-injective others names (sym f ∙ e)) i) k

  -- The end of a visit.
  finish-Visited :
      (stack : List ℕ) (file : ℕ) (names : List Name) (xs : List ℕ) (r : Result (List ℕ × Graph))
      → fs.read_includes file ≡ some names
      → includes xs file ≡ false
      → includes stack file ≡ false
      → VisitedAll (file ∷ stack) file names xs r
      → Visited stack file xs (finish_visit fs opts file r)
  finish-Visited stack file names xs (ok (targets, g)) e new off v = (
    (
      deps-HasAll file names g.ordered_files e v.2,
      v.3 file (includes-cons file stack file (inl refl)) new,
      v.0,
    ),
    (λ x h. includes-cons file g.ordered_files x (inr (v.1 x h))),
    includes-cons file g.ordered_files file (inl refl),
    (λ x h k.
        not-includes-cons file x g.ordered_files stack h off
          (v.3 x (includes-cons file stack x (inr h)) k)),
    (λ _. (g.ordered_files, refl)),
  )
  finish-Visited stack file names xs (include_cycle f) e new off v = v
  finish-Visited stack file names xs root_not_found e new off v = v
  finish-Visited stack file names xs include_not_found e new off v = tt
  finish-Visited stack file names xs exhausted e new off v = tt

  names-Visited :
      (go : ℕ → Graph → Result Graph) (stack : List ℕ) (file : ℕ) (o : Option (List Name))
      (g : Graph)
      → fs.read_includes file ≡ o
      → ((target : ℕ) (h : Graph)
          → Includes file target
          → DependencyFirst h.ordered_files
          → Visited (file ∷ stack) target h.ordered_files (go target h))
      → includes g.ordered_files file ≡ false
      → includes stack file ≡ false
      → DependencyFirst g.ordered_files
      → Visited stack file g.ordered_files (visit_names fs opts go roots file o g)
  names-Visited go stack file none g e visits new off d = tt
  names-Visited go stack file (some names) g e visits new off d =
      finish-Visited stack file names g.ordered_files (visit_all fs opts go roots file names g) e
        new off
        (all-Visited go (file ∷ stack) file names g visits
          (λ name target i k. (names, e, name, i, k)) d)

  Leads-next :
      (stack : List ℕ) (file target : ℕ)
      → ((s : ℕ) → includes stack s ≡ true → Leads s file)
      → Includes file target
      → (s : ℕ) → includes (file ∷ stack) s ≡ true
      → Leads s target
  Leads-next stack file target leads inc s h = elim (Bool-cases (file == s)) [
    | inl e ↦ subst (λ x. Leads x target) {x = file} (ground (arith, e)) (once inc)
    | inr e ↦ further (leads s (ground (arith, h, e))) inc
  ]

  visit-Visited :
      (fuel : ℕ) (stack : List ℕ) (file : ℕ) (g : Graph)
      → ((s : ℕ) → includes stack s ≡ true → Leads s file)
      → DependencyFirst g.ordered_files
      → Visited stack file g.ordered_files (visit fs opts roots fuel stack file g)
  unfolding visit
  visit-Visited zero stack file g leads d = tt
  visit-Visited (suc fuel) stack file g leads d =
      let go = visit fs opts roots fuel (file ∷ stack) in
      if_cases (Visited stack file g.ordered_files) (includes g.ordered_files file)
        (λ old. (
          d,
          (λ x h. h),
          old,
          (λ x h k. k),
          (λ new. absurd (apart (includes g.ordered_files file) new old)),
        ))
        (λ new.
          if_cases (Visited stack file g.ordered_files) (includes stack file) (λ on. leads file on)
            (λ off.
              names-Visited go stack file (fs.read_includes file) g refl
                (λ target h inc e.
                  visit-Visited fuel (file ∷ stack) target h
                    (Leads-next stack file target leads inc) e)
                new off d))

-- The graph of a root: every file stands behind all that it includes, once, and the root is the last.
abbrev pub IsResolved :
    {Name Dir : Type 0} → FileSystem Name Dir → Options Dir → ℕ → Result Graph → Type 0
IsResolved fs opts root (ok g) =
    DependencyFirst fs opts (fs.dirname root ∷ opts.include_dirs) g.ordered_files
    × (rest : List ℕ) × (g.ordered_files ≡ root ∷ rest)
IsResolved fs opts root (include_cycle f) = Leads fs opts (fs.dirname root ∷ opts.include_dirs) f f
IsResolved fs opts root root_not_found = fs.file_exists root ≡ false
IsResolved fs opts root include_not_found = Unit
IsResolved fs opts root exhausted = Unit

module _ {Name Dir : Type 0} (fs : FileSystem Name Dir) (opts : Options Dir) where
  Visited-IsResolved :
      (root : ℕ) (r : Result Graph)
      → Visited fs opts (fs.dirname root ∷ opts.include_dirs) [] root [] r
      → IsResolved fs opts root r
  Visited-IsResolved root (ok g) v = let (rest, e) = v.4 refl in (v.0, rest, e)
  Visited-IsResolved root (include_cycle f) v = v
  Visited-IsResolved root root_not_found v = absurd v
  Visited-IsResolved root include_not_found v = tt
  Visited-IsResolved root exhausted v = tt

  -- The resolved files come dependencies first: in the order of `orderedFiles` every file stands
  -- behind all that it includes, and once, and the root is the last. A cycle is reported only of a
  -- file that leads back to itself, and a missing root only of one that is no file.
  pub graph-IsResolved :
      (fuel root : ℕ) → IsResolved fs opts root (resolve_xml_include_graph fs opts fuel root)
  unfolding resolve_xml_include_graph
  graph-IsResolved fuel root =
      if_cases (IsResolved fs opts root) (fs.file_exists root)
        (λ e. Visited-IsResolved root _ (
          visit-Visited fs opts (fs.dirname root ∷ opts.include_dirs) fuel [] root
            (record { ordered_files = []; include_graph = [] }) (λ s h. ground (arith, h)) tt))
        (λ e. e)
