-- ===== src/Includes/Finite.antt =====
-- How deep the depth-first visit of lib/dialects/xml-include-resolver.js goes on a file system with
-- finitely many files.
use node_red_contrib_mavlink.Common.{
  ℕ, zero, suc, ◌+◌, ◌≤◌, ◌<◌, ◌≡◌, ◌≢◌, refl, subst, true, false, not, ◌&&◌, Option, none, some,
  List, [], ◌∷◌, arith, ◌==◌, includes, length, All, if◌then◌else◌, if_cases,
}
use mathlib.Core.Option.{some-injective}
use node_red_contrib_mavlink.Includes.{
  candidates, FileSystem, Options, Graph, Result, ok, root_not_found, include_not_found, exhausted,
  include_cycle, within_allowed_roots, first_candidate, resolve_include, finish_visit, visit_target,
  visit_all, visit_names, visit, add_target, and_then, resolve_xml_include_graph,
}

abbrev Distinct : List ℕ → Type 0
Distinct [] = Unit
Distinct (x ∷ xs) = (includes xs x ≡ false) × Distinct xs

abbrev without : ℕ → List ℕ → List ℕ
without n [] = []
without n (x ∷ xs) = if x == n then without n xs else x ∷ without n xs

length-without_absent :
    (n : ℕ) (xs : List ℕ) → includes xs n ≡ false → length (without n xs) ≡ length xs
length-without_absent n [] h = refl
length-without_absent n (x ∷ xs) h = ground (arith, length-without_absent n xs)

length-without : (n : ℕ) (xs : List ℕ) → Distinct xs → length xs ≤ suc (length (without n xs))
length-without n [] d = omega arith
length-without n (x ∷ xs) d =
    if_cases (λ ys. suc (length xs) ≤ suc (length ys)) (x == n)
      (λ e. omega (
        arith,
        length-without_absent n xs
            (subst (λ k. includes xs k ≡ false) {x = x} (ground (arith, e)) d.0),
      ))
      (λ e. omega (arith, length-without n xs d.1))

without-absent : (n x : ℕ) (xs : List ℕ) → includes xs x ≡ false → includes (without n xs) x ≡ false
without-absent n x [] h = refl
without-absent n x (y ∷ xs) h = ground (arith, without-absent n x xs)

without-Distinct : (n : ℕ) (xs : List ℕ) → Distinct xs → Distinct (without n xs)
without-Distinct n [] d = tt
without-Distinct n (x ∷ xs) d =
    if_cases Distinct (x == n) (λ e. without-Distinct n xs d.1)
      (λ e. (without-absent n x xs d.0, without-Distinct n xs d.1))

without-below : (n : ℕ) (xs : List ℕ) → All (λ x. x < suc n) xs → All (λ x. x < n) (without n xs)
without-below n [] h = tt
without-below n (x ∷ xs) h =
    if_cases (All (λ y. y < n)) (x == n) (λ e. without-below n xs h.1)
      (λ e. (ground (arith, e, h.0), without-below n xs h.1))

-- Distinct numbers below a bound are at most as many as it says.
length-Distinct : (n : ℕ) (xs : List ℕ) → Distinct xs → All (λ x. x < n) xs → length xs ≤ n
length-Distinct zero [] d h = omega arith
length-Distinct zero (x ∷ xs) d h = absurd (omega (arith, h.0))
length-Distinct (suc n) xs d h = omega (
  arith,
  length-without n xs d,
  length-Distinct n (without n xs) (without-Distinct n xs d) (without-below n xs h),
)

abbrev Ends : {A : Type 0} → Result A → Type 0
Ends (ok a) = Unit
Ends root_not_found = Unit
Ends include_not_found = Unit
Ends exhausted = ⊥
Ends (include_cycle f) = Unit

module _ {Name Dir : Type 0} (fs : FileSystem Name Dir) (opts : Options Dir) where
  first_candidate-exists :
      (roots : List Dir) (cs : List ℕ) (target : ℕ)
      → first_candidate fs opts roots cs ≡ some target
      → fs.file_exists target ≡ true
  first_candidate-exists roots [] target e = ground (arith, e)
  first_candidate-exists roots (candidate ∷ cs) target e =
      if_cases {A = Option ℕ} (λ o. o ≡ some target → fs.file_exists target ≡ true)
        (fs.file_exists candidate)
        (λ h.
          if_cases {A = Option ℕ} (λ o. o ≡ some target → fs.file_exists target ≡ true)
            (not opts.allow_outside_root && not (within_allowed_roots fs opts candidate roots))
            (λ k p. ground (arith, p))
            (λ k p. subst (λ x. fs.file_exists x ≡ true) (some-injective candidate target p) h))
        (λ h p. first_candidate-exists roots cs target p) e

  resolve_include-exists :
      (roots : List Dir) (from : ℕ) (name : Name) (target : ℕ)
      → resolve_include fs opts roots from name ≡ some target
      → fs.file_exists target ≡ true
  unfolding resolve_include
  resolve_include-exists roots from name target e =
      if_cases {A = Option ℕ} (λ o. o ≡ some target → fs.file_exists target ≡ true) (fs.is_url name)
        (λ h p. ground (arith, p))
        (λ h p.
          first_candidate-exists roots
            (candidates fs opts name (fs.dirname from ∷ opts.include_dirs)) target p)
        e

  add-Ends :
      (target : ℕ) (r : Result (List ℕ × Graph)) → Ends r → Ends (add_target fs opts target r)
  add-Ends target (ok (ts, g)) h = tt
  add-Ends target root_not_found h = tt
  add-Ends target include_not_found h = tt
  add-Ends target (include_cycle f) h = tt
  add-Ends target exhausted h = h

  then-Ends :
      (r : Result Graph) (next : Graph → Result (List ℕ × Graph))
      → Ends r
      → ((g : Graph) → Ends (next g))
      → Ends (and_then fs opts r next)
  then-Ends (ok g) next h k = k g
  then-Ends root_not_found next h k = tt
  then-Ends include_not_found next h k = tt
  then-Ends (include_cycle f) next h k = tt
  then-Ends exhausted next h k = h

  finish-Ends :
      (file : ℕ) (r : Result (List ℕ × Graph)) → Ends r → Ends (finish_visit fs opts file r)
  finish-Ends file (ok r) h = tt
  finish-Ends file root_not_found h = tt
  finish-Ends file include_not_found h = tt
  finish-Ends file (include_cycle f) h = tt
  finish-Ends file exhausted h = h

  module _ (roots : List Dir) where
    target-Ends :
        (go : ℕ → Graph → Result Graph) (o : Option ℕ) (next : Graph → Result (List ℕ × Graph))
        (g : Graph)
        → ((target : ℕ) → o ≡ some target → Ends (go target g))
        → ((h : Graph) → Ends (next h))
        → Ends (visit_target fs opts go o next g)
    target-Ends go none next g v k = tt
    target-Ends go (some target) next g v k =
        add-Ends target (and_then fs opts (go target g) next)
          (then-Ends (go target g) next (v target refl) k)

    all-Ends :
        (go : ℕ → Graph → Result Graph) (file : ℕ) (names : List Name) (g : Graph)
        → ((target : ℕ) (h : Graph) → fs.file_exists target ≡ true → Ends (go target h))
        → Ends (visit_all fs opts go roots file names g)
    unfolding visit_all
    all-Ends go file [] g v = tt
    all-Ends go file (name ∷ names) g v =
        target-Ends go (resolve_include fs opts roots file name)
          (visit_all fs opts go roots file names) g
          (λ target e. v target g (resolve_include-exists roots file name target e))
          (λ h. all-Ends go file names h v)

    names-Ends :
        (go : ℕ → Graph → Result Graph) (file : ℕ) (o : Option (List Name)) (g : Graph)
        → ((target : ℕ) (h : Graph) → fs.file_exists target ≡ true → Ends (go target h))
        → Ends (visit_names fs opts go roots file o g)
    names-Ends go file none g v = tt
    names-Ends go file (some names) g v =
        finish-Ends file (visit_all fs opts go roots file names g) (all-Ends go file names g v)

    module _ (n : ℕ) (finite : (file : ℕ) → fs.file_exists file ≡ true → file < n) where
      visit-Ends :
          (fuel : ℕ) (stack : List ℕ) (file : ℕ) (g : Graph)
          → n < fuel + length stack
          → Distinct stack
          → All (λ x. x < n) stack
          → file < n
          → Ends (visit fs opts roots fuel stack file g)
      unfolding visit
      visit-Ends zero stack file g h d b l = absurd (omega (arith, h, length-Distinct n stack d b))
      visit-Ends (suc fuel) stack file g h d b l =
          let go = visit fs opts roots fuel (file ∷ stack) in
          if_cases {A = Result Graph} Ends (includes g.ordered_files file) (λ e. tt)
            (λ e.
              if_cases {A = Result Graph} Ends (includes stack file) (λ k. tt)
                (λ off. names-Ends go file (fs.read_includes file) g (λ target q e2.
                  visit-Ends fuel (file ∷ stack) target q (omega (arith, h)) (off, d) (l, b)
                    (finite target e2))))

  Ends-exhausted : (r : Result Graph) → Ends r → r ≢ exhausted
  Ends-exhausted r h e = subst Ends e h

  -- When every path that is a file is below `n`, a depth of n + 1 visits is enough for any root:
  -- the resolution ends with a graph or an error.
  pub resolve_ends :
      (n root : ℕ)
      → ((file : ℕ) → fs.file_exists file ≡ true → file < n)
      → resolve_xml_include_graph fs opts (suc n) root ≢ exhausted
  unfolding resolve_xml_include_graph
  resolve_ends n root finite = Ends-exhausted (resolve_xml_include_graph fs opts (suc n) root) (
      if_cases {A = Result Graph} Ends (fs.file_exists root)
        (λ e.
          visit-Ends (fs.dirname root ∷ opts.include_dirs) n finite (suc n) [] root
            (record { ordered_files = []; include_graph = [] }) (omega arith) tt tt (finite root e))
        (λ e. tt))
