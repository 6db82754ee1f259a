-- ===== src/Includes.antt =====
-- lib/dialects/xml-include-resolver.js: resolveXmlIncludeGraph. A file is its absolute path, a number.
-- `fs`, `path` and the regular expressions are a parameter, FileSystem.
pub mod Acyclic
pub mod Finite
pub mod Examples
use node_red_contrib_mavlink.Common.{
  ℕ, zero, suc, Bool, true, false, not, ◌&&◌, ◌||◌, Option, none, some, List, [], ◌∷◌, map,
  includes, if◌then◌else◌,
}

-- What the resolver asks of the file system: whether a path is a file, the include names that
-- `extractIncludes` finds in its text (none when it cannot be read), its directory, `path.resolve` of
-- a directory and a name, and the real path's containment in a directory. `is_url` is the test of a name.
pub record FileSystem (Name Dir : Type 0) : Type 0 where
  pub file_exists : ℕ → Bool
  pub read_includes : ℕ → Option (List Name)
  pub dirname : ℕ → Dir
  pub resolve_path : Dir → Name → ℕ
  pub is_within : Dir → ℕ → Bool
  pub is_url : Name → Bool

pub record Options (Dir : Type 0) : Type 0 where
  pub include_dirs : List Dir
  pub allow_outside_root : Bool

-- The files in the order in which they were finished, the newest first, with what they include. The
-- set `visited` holds the same files as `ordered_files`.
pub record Graph : Type 0 where
  pub ordered_files : List ℕ
  pub include_graph : List (ℕ × List ℕ)

-- `exhausted` is no outcome of the program: it says that the fuel was too little.
pub data Result (A : Type 0) : Type 0 where
  ok : A → Result A
  root_not_found include_not_found exhausted : Result A
  include_cycle : ℕ → Result A

module _ {Name Dir : Type 0} (fs : FileSystem Name Dir) (opts : Options Dir) where
  -- `withinAllowedRoots`
  abbrev pub within_allowed_roots : ℕ → List Dir → Bool
  within_allowed_roots file [] = false
  within_allowed_roots file (root ∷ roots) =
      fs.is_within root file || within_allowed_roots file roots

  -- The loop over the candidates.
  abbrev pub first_candidate : List Dir → List ℕ → Option ℕ
  first_candidate roots [] = none
  first_candidate roots (candidate ∷ rest) =
      if fs.file_exists candidate
      then (if not opts.allow_outside_root && not (within_allowed_roots candidate roots)
          then none
          else some candidate)
      else first_candidate roots rest

  abbrev pub candidates : Name → List Dir → List ℕ
  candidates name [] = []
  candidates name (dir ∷ dirs) = fs.resolve_path dir name ∷ candidates name dirs

  -- `resolveInclude`, from the directory of the including file.
  unfoldable pub resolve_include : List Dir → ℕ → Name → Option ℕ
  resolve_include roots from name =
      if fs.is_url name
      then none
      else first_candidate roots (candidates name (fs.dirname from ∷ opts.include_dirs))

  -- The end of `visit`: the file is finished.
  abbrev pub finish_file : ℕ → List ℕ × Graph → Graph
  finish_file file (targets, g) = record {
    ordered_files = file ∷ g.ordered_files;
    include_graph = (file, targets) ∷ g.include_graph;
  }

  -- A target is the first of those that the rest of the loop gives.
  abbrev pub add_target : ℕ → Result (List ℕ × Graph) → Result (List ℕ × Graph)
  add_target target (ok (targets, g)) = ok (target ∷ targets, g)
  add_target target root_not_found = root_not_found
  add_target target include_not_found = include_not_found
  add_target target exhausted = exhausted
  add_target target (include_cycle f) = include_cycle f

  abbrev pub and_then : Result Graph → (Graph → Result (List ℕ × Graph)) → Result (List ℕ × Graph)
  and_then (ok g) next = next g
  and_then root_not_found next = root_not_found
  and_then include_not_found next = include_not_found
  and_then exhausted next = exhausted
  and_then (include_cycle f) next = include_cycle f

  -- The loop over the include names of a file; `go` visits a target.
  abbrev pub visit_target :
      (ℕ → Graph → Result Graph)
      → Option ℕ
      → (Graph → Result (List ℕ × Graph))
      → Graph
      → Result (List ℕ × Graph)
  visit_target go none next g = include_not_found
  visit_target go (some target) next g = add_target target (and_then (go target g) next)

  unfoldable pub visit_all :
      (ℕ → Graph → Result Graph) → List Dir → ℕ → List Name → Graph → Result (List ℕ × Graph)
  visit_all go roots from [] g = ok ([], g)
  visit_all go roots from (name ∷ names) g =
      visit_target go (resolve_include roots from name) (visit_all go roots from names) g

  abbrev pub finish_visit : ℕ → Result (List ℕ × Graph) → Result Graph
  finish_visit file (ok r) = ok (finish_file file r)
  finish_visit file root_not_found = root_not_found
  finish_visit file include_not_found = include_not_found
  finish_visit file exhausted = exhausted
  finish_visit file (include_cycle f) = include_cycle f

  abbrev pub visit_names :
      (ℕ → Graph → Result Graph) → List Dir → ℕ → Option (List Name) → Graph → Result Graph
  visit_names go roots file none g = include_not_found
  visit_names go roots file (some names) g = finish_visit file (visit_all go roots file names g)

  -- `visit`, with the files on the stack, on fuel for its depth.
  unfoldable pub visit : List Dir → ℕ → List ℕ → ℕ → Graph → Result Graph
  visit roots zero stack file g = exhausted
  visit roots (suc fuel) stack file g =
      let go = visit roots fuel (file ∷ stack) in
      if includes g.ordered_files file
      then ok g
      else (if includes stack file
          then include_cycle file
          else visit_names go roots file (fs.read_includes file) g)

  -- `resolveXmlIncludeGraph`
  unfoldable pub resolve_xml_include_graph : ℕ → ℕ → Result Graph
  resolve_xml_include_graph fuel root =
      if fs.file_exists root
      then visit (fs.dirname root ∷ opts.include_dirs) fuel [] root
          (record { ordered_files = []; include_graph = [] })
      else root_not_found
