-- ===== src/Includes/Examples.antt =====
-- Runs of lib/dialects/xml-include-resolver.js at concrete inputs.
use node_red_contrib_mavlink.Common.{
  ℕ, ◌≡◌, ◌≢◌, refl, true, false, Option, some, List, [], ◌∷◌, ltb, ltb→lt, if◌then◌else◌,
  get_elem?, ◌==◌,
}
use node_red_contrib_mavlink.Includes.{
  FileSystem, Options, Graph, Result, ok, exhausted, include_cycle, resolve_include,
  resolve_xml_include_graph, visit, visit_all,
}
use node_red_contrib_mavlink.Includes.Acyclic.{IsResolved, graph-IsResolved}
use node_red_contrib_mavlink.Includes.Finite.{resolve_ends}

-- Four files in one directory: ardupilotmega (3) includes common (2) and minimal (0), common includes
-- standard (1), and standard includes minimal.
abbrev names_of : ℕ → Option (List ℕ)
names_of file = get_elem? ([] ∷ (0 ∷ []) ∷ (1 ∷ []) ∷ (2 ∷ 0 ∷ []) ∷ []) file

abbrev dialects : FileSystem ℕ Unit
dialects = record {
  file_exists = λ file. ltb file 4;
  read_includes = names_of;
  dirname = λ file. tt;
  resolve_path = λ dir name. name;
  is_within = λ dir file. true;
  is_url = λ name. false;
}

-- The same, but minimal includes common.
abbrev looping : FileSystem ℕ Unit
looping = record dialects {
  read_includes = λ file. if file == 0 then some (2 ∷ []) else names_of file;
}

abbrev options : Options Unit
options = record { include_dirs = []; allow_outside_root = false }

abbrev resolved : Result Graph
resolved = ok (record {
  ordered_files = 3 ∷ 2 ∷ 1 ∷ 0 ∷ [];
  include_graph = (3, 2 ∷ 0 ∷ []) ∷ (2, 1 ∷ []) ∷ (1, 0 ∷ []) ∷ (0, []) ∷ [];
})

dialects-resolved : resolve_xml_include_graph dialects options 5 3 ≡ resolved
unfolding resolve_xml_include_graph visit visit_all resolve_include
dialects-resolved = refl

graph-IsResolved_example : IsResolved dialects options 3 resolved
unfolding resolve_xml_include_graph visit visit_all resolve_include
graph-IsResolved_example = graph-IsResolved dialects options 5 3

looping_cycle : resolve_xml_include_graph looping options 5 3 ≡ include_cycle 2
unfolding resolve_xml_include_graph visit visit_all resolve_include
looping_cycle = refl

resolve_ends_example : resolve_xml_include_graph looping options 5 3 ≢ exhausted
resolve_ends_example = resolve_ends looping options 4 3 (λ file h. ltb→lt file 4 h)
