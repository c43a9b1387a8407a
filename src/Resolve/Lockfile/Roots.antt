-- ===== src/Resolve/Lockfile/Roots.antt =====
-- The roots of a graph in a lockfile: the same ones, each once where they are sorted.
use oath.Prelude.Maps.{Map}
use oath.Prelude.{
  ◌≡◌, refl, sym, ap, ◌∙◌, inl, inr, ◌||◌, Bool, true, false, List, [], ◌∷◌, Text, text_eq,
  text_eq_iff, contains_text, Bool-cases,
}
use oath.Resolve.Lockfile.{
  DepGraph, insert_text, text_le, sort, dedup_after, dedup, from_graph_with_manifest, to_graph,
}

or_swap : (a b c : Bool) → (a || (b || c)) ≡ (b || (a || c))
or_swap true true c = refl
or_swap true false c = refl
or_swap false true c = refl
or_swap false false c = refl

or_twice : (a c : Bool) → (a || (a || c)) ≡ (a || c)
or_twice true c = refl
or_twice false c = refl

contains-insert_text :
    (x r : Text) (ys : List Text) → contains_text (insert_text x ys) r ≡ contains_text (x ∷ ys) r
unfolding insert_text contains_text
contains-insert_text x r [] = refl
contains-insert_text x r (y ∷ ys) = elim (Bool-cases (text_le x y)) [
  | inl e ↦ rw e refl
  | inr e ↦
      rw (e, contains-insert_text x r ys) (or_swap (text_eq y r) (text_eq x r) (contains_text ys r))
]

contains-sort : (r : Text) (xs : List Text) → contains_text (sort xs) r ≡ contains_text xs r
unfolding sort contains_text
contains-sort r [] = refl
contains-sort r (x ∷ xs) =
    contains-insert_text x r (sort xs) ∙ ap (λ b. text_eq x r || b) (contains-sort r xs)

contains-dedup_after :
    (x r : Text) (ys : List Text)
    → contains_text (x ∷ dedup_after x ys) r ≡ contains_text (x ∷ ys) r
unfolding dedup_after contains_text
contains-dedup_after x r [] = refl
contains-dedup_after x r (y ∷ ys) = elim (Bool-cases (text_eq x y)) [
  | inl e ↦
      let same = (text_eq_iff x y).0 e in
      rw e (
        contains-dedup_after x r ys
        ∙ sym (or_twice (text_eq x r) (contains_text ys r))
        ∙ ap (λ u. text_eq x r || (text_eq u r || contains_text ys r)) same)
  | inr e ↦ rw e (ap (λ b. text_eq x r || b) (contains-dedup_after y r ys))
]

contains-dedup : (r : Text) (xs : List Text) → contains_text (dedup xs) r ≡ contains_text xs r
unfolding dedup
contains-dedup r [] = refl
contains-dedup r (x ∷ xs) = contains-dedup_after x r xs

-- A graph that was written to a lockfile and read back has the roots of the graph.
pub contains-roots :
    (graph : DepGraph) (project_name project_version : Text) (deps dev_deps : Map Text)
    (root : Text)
    → contains_text
        (to_graph (from_graph_with_manifest graph project_name project_version deps dev_deps)).roots
        root
      ≡ contains_text graph.roots root
unfolding to_graph from_graph_with_manifest
contains-roots graph project_name project_version deps dev_deps root =
    contains-dedup root (sort graph.roots) ∙ contains-sort root graph.roots
