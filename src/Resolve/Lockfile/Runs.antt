-- ===== src/Resolve/Lockfile/Runs.antt =====
-- A graph of one canonical package and one that is placed under its alias.
use oath.Prelude.Maps.{lookup}
use oath.Prelude.{
  strip_prefix, ◌≡◌, refl, inl, false, none, [], ◌∷◌, codes, text_eq, contains_text, starts_with,
}
use mathlib.Core.Path.{subst}
use oath.Resolve.Names.{
  split_last, after_last, lock_key_package_name, npm_tarball_package_name, before_query,
  before_pattern,
}
use oath.Resolve.Lockfile.{DepNode, DepGraph, key, from_graph_with_manifest, to_graph}
use oath.Resolve.Lockfile.Restored.{
  IsKeyed, IsRestored, IsNode, IsNamed, lock_key_package_name-key, to_graph-from_graph,
}
use oath.Resolve.Lockfile.Roots.{contains-roots}

abbrev left_pad : DepNode
left_pad = record {
  name = codes "pad";
  alias = none;
  version = codes "1.3";
  resolved = codes "file:pad.tgz";
  integrity = none;
  dependencies = (codes "a", codes "a@1") ∷ (codes "b", codes "b@2") ∷ [];
  has_install_script = false;
  dev = false;
  optional = false;
  peer_dependencies = [];
  optional_peers = codes "p" ∷ [];
  resolved_peers = [];
}

abbrev graph : DepGraph
graph = record {
  nodes = (codes "pad@1.3", left_pad) ∷ [];
  roots = codes "pad@1.3" ∷ codes "a" ∷ codes "pad@1.3" ∷ [];
}

pad-IsKeyed : IsKeyed (codes "pad") (codes "1.3")
unfolding split_last after_last strip_prefix
pad-IsKeyed = record {
  first = b'p';
  rest = codes "ad";
  named = refl;
  unmarked = refl;
  canonical = refl;
}

lock_key_package_name-key_example :
    lock_key_package_name (key (codes "pad") (codes "1.3")) ≡ codes "pad"
lock_key_package_name-key_example =
    lock_key_package_name-key (codes "pad") (codes "1.3") pad-IsKeyed

to_graph-from_graph_example : IsRestored (lookup (codes "pad@1.3") graph.nodes) (
    lookup
      (codes "pad@1.3")
      (to_graph (from_graph_with_manifest graph (codes "demo") (codes "0") [] [])).nodes)
unfolding lookup text_eq npm_tarball_package_name before_query before_pattern starts_with
to_graph-from_graph_example =
    to_graph-from_graph graph (codes "demo") (codes "0") [] [] (codes "pad@1.3") (refl, tt)
      (λ node e.
        let same : left_pad ≡ node = cc in
        subst (λ n. IsNode n × IsNamed n) same
          (
            record {
              dependencies = (refl, (refl, tt));
              peer_dependencies = tt;
              resolved_peers = tt;
            },
            inl (refl, pad-IsKeyed),
          ))

contains-roots_example :
    contains_text
      (to_graph (from_graph_with_manifest graph (codes "demo") (codes "0") [] [])).roots
      (codes "a")
    ≡ contains_text graph.roots (codes "a")
contains-roots_example = contains-roots graph (codes "demo") (codes "0") [] [] (codes "a")
