-- ===== src/Resolve/Lockfile/Restored.antt =====
-- A graph written to a lockfile and read back.
use oath.Prelude.Maps.{lookup, Map}
use oath.Prelude.{
  ℕ, ◌≡◌, refl, ap, ◌∙◌, ◌⊎◌, inl, inr, Option, none, some, [], ◌∷◌, Text, codes, text_eq,
  text_eq_iff, Bool-cases,
}
use oath.Resolve.Names.{
  split_last, canonical_name, after_last, lock_key_package_name, npm_tarball_package_name,
}
use oath.Resolve.Lockfile.{
  insert_all, collect, DepNode, DepGraph, LockEntry, key, package_name_for_key, lock_entry,
  dep_node, from_graph_with_manifest, to_graph,
}
use oath.Resolve.Lockfile.Maps.{IsMap, map_some, or_else, insert_all-IsMap, lookup-insert_all}

-- A name that is not empty, and a version without `@`.
pub record IsKeyed (name version : Text) : Type 0 where
  pub first : ℕ
  pub rest : Text
  pub named : name ≡ first ∷ rest
  pub unmarked : split_last b'@' version ≡ none
  pub canonical : after_last (codes "node_modules/") (key name version) ≡ none

split_last-key :
    (name version : Text)
    → split_last b'@' version ≡ none
    → split_last b'@' (key name version) ≡ some (name, version)
unfolding split_last
split_last-key [] version h = rw h refl
split_last-key (c ∷ cs) version h = rw (split_last-key cs version h) refl

-- The name is read back from a canonical key, of a name that is not empty and a version without `@`,
-- which is no path under `node_modules/`.
pub lock_key_package_name-key :
    (name version : Text) → IsKeyed name version → lock_key_package_name (key name version) ≡ name
unfolding lock_key_package_name canonical_name
lock_key_package_name-key name version h =
    rw (h.canonical, split_last-key name version h.unmarked) (rw h.named refl)

-- The URL of the tarball names another package neither.
abbrev pub IsNamed : DepNode → Type 0
IsNamed node =
    ((npm_tarball_package_name node.resolved ≡ none) × IsKeyed node.name node.version)
    ⊎ (npm_tarball_package_name node.resolved ≡ some node.name)

package_name-lock_entry :
    (j : Text) (node : DepNode)
    → IsNamed node
    → package_name_for_key (lock_entry j node) j ≡ node.name
unfolding lock_entry package_name_for_key
package_name-lock_entry j node h = elim (Bool-cases (text_eq j (key node.name node.version))) [
  | inl e ↦ elim h [
    | inl (f, k) ↦
        rw (e, f)
          (ap lock_key_package_name ((text_eq_iff j (key node.name node.version)).0 e)
            ∙ lock_key_package_name-key node.name node.version k)
    | inr f ↦ rw (e, f) refl
  ]
  | inr e ↦ rw e refl
]

-- The maps of a node are maps.
pub record IsNode (node : DepNode) : Type 0 where
  pub dependencies : IsMap node.dependencies
  pub peer_dependencies : IsMap node.peer_dependencies
  pub resolved_peers : IsMap node.resolved_peers

abbrev SameMap : Map Text → Map Text → Type 0
SameMap m n = (k : Text) → lookup k n ≡ lookup k m

-- Two nodes that agree but for the order of their maps and the optional peers.
pub record SameNode (node r : DepNode) : Type 0 where
  pub name : r.name ≡ node.name
  pub alias : r.alias ≡ node.alias
  pub version : r.version ≡ node.version
  pub resolved : r.resolved ≡ node.resolved
  pub integrity : r.integrity ≡ node.integrity
  pub dependencies : SameMap node.dependencies r.dependencies
  pub has_install_script : r.has_install_script ≡ node.has_install_script
  pub dev : r.dev ≡ node.dev
  pub optional : r.optional ≡ node.optional
  pub peer_dependencies : SameMap node.peer_dependencies r.peer_dependencies
  pub resolved_peers : SameMap node.resolved_peers r.resolved_peers

same_some : (o : Option Text) → or_else (map_some (λ v. v) o) none ≡ o
same_some none = refl
same_some (some a) = refl

SameMap-collect : (m : Map Text) → IsMap m → SameMap m (collect (collect m))
unfolding lookup
SameMap-collect m h k =
    let twice =
      lookup-insert_all (λ key value. value) k (collect m) []
        (insert_all-IsMap (λ key value. value) m [] tt) in
    let once = lookup-insert_all (λ key value. value) k m [] h in
    twice ∙ same_some (lookup k (collect m)) ∙ once ∙ same_some (lookup k m)

SameNode-dep_node :
    (j : Text) (node : DepNode)
    → IsNode node
    → IsNamed node
    → SameNode node (dep_node j (lock_entry j node))
unfolding dep_node lock_entry
SameNode-dep_node j node h n = record {
  name = package_name-lock_entry j node n;
  alias = refl;
  version = refl;
  resolved = refl;
  integrity = refl;
  dependencies = SameMap-collect node.dependencies h.dependencies;
  has_install_script = refl;
  dev = refl;
  optional = refl;
  peer_dependencies = SameMap-collect node.peer_dependencies h.peer_dependencies;
  resolved_peers = SameMap-collect node.resolved_peers h.resolved_peers;
}

both :
    (f : LockEntry → DepNode) (g : DepNode → LockEntry) (o : Option DepNode)
    → or_else (map_some f (or_else (map_some g o) none)) none ≡ map_some (λ node. f (g node)) o
both f g none = refl
both f g (some a) = refl

pub IsRestored : Option DepNode → Option DepNode → Type 0
IsRestored none none = Unit
IsRestored none (some r) = ⊥
IsRestored (some node) none = ⊥
IsRestored (some node) (some r) = SameNode node r

restored :
    (j : Text) (o : Option DepNode)
    → ((node : DepNode) → o ≡ some node → IsNode node × IsNamed node)
    → IsRestored o (map_some (λ node. dep_node j (lock_entry j node)) o)
unfolding IsRestored
restored j none h = tt
restored j (some node) h = let (a, b) = h node refl in SameNode-dep_node j node a b

nodes-to_graph :
    (graph : DepGraph) (project_name project_version : Text) (deps dev_deps : Map Text) (j : Text)
    → IsMap graph.nodes
    → lookup j
        (to_graph (from_graph_with_manifest graph project_name project_version deps dev_deps)).nodes
      ≡ map_some (λ node. dep_node j (lock_entry j node)) (lookup j graph.nodes)
unfolding to_graph from_graph_with_manifest lookup
nodes-to_graph graph project_name project_version deps dev_deps j h =
    lookup-insert_all dep_node j (insert_all lock_entry graph.nodes []) []
      (insert_all-IsMap lock_entry graph.nodes [] tt)
    ∙ ap (λ o. or_else (map_some (dep_node j) o) none)
        (lookup-insert_all lock_entry j graph.nodes [] h)
    ∙ both (dep_node j) (lock_entry j) (lookup j graph.nodes)

-- A package of the graph is found again under its key, the same but for the order of its maps and for
-- its optional peers, where its maps hold each key once and its name can be read from the key or from the
-- URL of its tarball; and no other package is.
pub to_graph-from_graph :
    (graph : DepGraph) (project_name project_version : Text) (deps dev_deps : Map Text) (j : Text)
    → IsMap graph.nodes
    → ((node : DepNode) → lookup j graph.nodes ≡ some node → IsNode node × IsNamed node)
    → IsRestored (lookup j graph.nodes) (
        lookup j
          (to_graph
            (from_graph_with_manifest graph project_name project_version deps dev_deps)).nodes)
to_graph-from_graph graph project_name project_version deps dev_deps j m h =
    rw (nodes-to_graph graph project_name project_version deps dev_deps j m)
      (restored j (lookup j graph.nodes) h)
