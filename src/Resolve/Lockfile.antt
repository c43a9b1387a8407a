-- ===== src/Resolve/Lockfile.antt =====
-- crates/oath-resolve/src/lockfile.rs and graph.rs: the lockfile made of a graph of resolved packages,
-- and the graph made of a lockfile. A map is the list of its entries, in the order in which it is
-- walked, with each key once; `insert` replaces the entry of a key or adds one.
mod Maps
mod Restored
mod Roots
mod Runs
use oath.Prelude.Maps.{lookup, Map}
use oath.Prelude.{
  ℕ, ◌+◌, ◌==◌, ◌&&◌, ◌||◌, ltb, Bool, true, false, not, if◌then◌else◌, Option, none, some, List,
  [], ◌∷◌, ◌++◌, length, Text, codes, text_eq,
}
use oath.Resolve.Names.{npm_tarball_package_name, lock_key_package_name}

unfoldable pub insert {ℓ} : {A : Type ℓ} → Text → A → Map A → Map A
insert key value [] = (key, value) ∷ []
insert key value (x ∷ xs) =
    let rest = insert key value xs in if text_eq x.0 key then (key, value) ∷ xs else x ∷ rest

-- `for (key, value) in map { out.insert(key, f(key, value)) }`
unfoldable pub insert_all {ℓ κ} : {A : Type ℓ} {B : Type κ} → (Text → A → B) → Map A → Map B → Map B
insert_all f [] out = out
insert_all f (x ∷ xs) out = insert_all f xs (insert x.0 (f x.0 x.1) out)

-- `clone().into_iter().collect()`, to another kind of map
abbrev pub collect : Map Text → Map Text
collect m = insert_all (λ key value. value) m []

pub record DepNode : Type 0 where
  pub name : Text
  pub alias : Option Text
  pub version : Text
  pub resolved : Text
  pub integrity : Option Text
  pub dependencies : Map Text
  pub has_install_script : Bool
  pub dev : Bool
  pub optional : Bool
  pub peer_dependencies : Map Text
  pub optional_peers : List Text
  pub resolved_peers : Map Text

pub record DepGraph : Type 0 where
  pub nodes : Map DepNode
  pub roots : List Text

pub record LockEntry : Type 0 where
  pub name : Option Text
  pub version : Text
  pub resolved : Text
  pub integrity : Option Text
  pub dependencies : Map Text
  pub dev : Bool
  pub optional : Bool
  pub has_install_script : Bool
  pub alias : Option Text
  pub peer_dependencies : Map Text
  pub resolved_peers : Map Text

pub record Lockfile : Type 0 where
  pub lockfile_version : ℕ
  pub name : Text
  pub version : Text
  pub roots : List Text
  pub root_dependencies : Map Text
  pub root_dev_dependencies : Map Text
  pub packages : Map LockEntry

-- `DepGraph::key`, the canonical key of a package.
abbrev pub key : Text → Text → Text
key name version = name ++ codes "@" ++ version

-- The stored name, or that of the URL, or that of the key.
abbrev pub choose_name : Option Text → Option Text → Text → Text
choose_name (some name) url_name key = name
choose_name none (some name) key = name
choose_name none none key = lock_key_package_name key

unfoldable pub package_name_for_key : LockEntry → Text → Text
package_name_for_key entry key =
    choose_name entry.name (npm_tarball_package_name entry.resolved) key

unfoldable pub lock_entry : Text → DepNode → LockEntry
lock_entry node_key node = record {
  name = if text_eq node_key (key node.name node.version) then none else some node.name;
  version = node.version;
  resolved = node.resolved;
  integrity = node.integrity;
  dependencies = collect node.dependencies;
  dev = node.dev;
  optional = node.optional;
  has_install_script = node.has_install_script;
  alias = node.alias;
  peer_dependencies = collect node.peer_dependencies;
  resolved_peers = collect node.resolved_peers;
}

-- The order of bytes.
unfoldable pub text_le : Text → Text → Bool
text_le [] t = true
text_le (a ∷ s) [] = false
text_le (a ∷ s) (b ∷ t) = let rest = text_le s t in ltb a b || a == b && rest

unfoldable pub insert_text : Text → List Text → List Text
insert_text x [] = x ∷ []
insert_text x (y ∷ ys) = let rest = insert_text x ys in if text_le x y then x ∷ y ∷ ys else y ∷ rest

unfoldable pub sort : List Text → List Text
sort [] = []
sort (x ∷ xs) = insert_text x (sort xs)

-- `dedup`: of equal texts side by side the first stays.
unfoldable pub dedup_after : Text → List Text → List Text
dedup_after x [] = []
dedup_after x (y ∷ ys) =
    let same = dedup_after x ys in
    let other = dedup_after y ys in if text_eq x y then same else y ∷ other

unfoldable pub dedup : List Text → List Text
dedup [] = []
dedup (x ∷ xs) = x ∷ dedup_after x xs

unfoldable pub from_graph_with_manifest : DepGraph → Text → Text → Map Text → Map Text → Lockfile
from_graph_with_manifest graph project_name project_version root_dependencies
      root_dev_dependencies =
    record {
      lockfile_version = 2;
      name = project_name;
      version = project_version;
      roots = dedup (sort graph.roots);
      root_dependencies = collect root_dependencies;
      root_dev_dependencies = collect root_dev_dependencies;
      packages = insert_all lock_entry graph.nodes [];
    }

unfoldable pub from_graph : DepGraph → Text → Text → Lockfile
from_graph graph project_name project_version =
    from_graph_with_manifest graph project_name project_version [] []

unfoldable pub dep_node : Text → LockEntry → DepNode
dep_node node_key entry = record {
  name = package_name_for_key entry node_key;
  alias = entry.alias;
  version = entry.version;
  resolved = entry.resolved;
  integrity = entry.integrity;
  dependencies = collect entry.dependencies;
  has_install_script = entry.has_install_script;
  dev = entry.dev;
  optional = entry.optional;
  peer_dependencies = collect entry.peer_dependencies;
  optional_peers = [];
  resolved_peers = collect entry.resolved_peers;
}

unfoldable pub to_graph : Lockfile → DepGraph
to_graph lockfile = record {
  nodes = insert_all dep_node lockfile.packages [];
  roots = lockfile.roots;
}

abbrev pub contains_key {ℓ} : {A : Type ℓ} → Text → Map A → Bool
contains_key k m = elim (lookup k m) [ none ↦ false | some a ↦ true ]

pub is_locked : Lockfile → Text → Text → Bool
is_locked lockfile name version = contains_key (key name version) lockfile.packages

pub package_count : Lockfile → ℕ
package_count lockfile = length lockfile.packages
