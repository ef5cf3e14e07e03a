-- ===== src/Search/Trees.antt =====
-- What the XML of a condition can be: a tree of comparisons, searches in the text, negations,
-- conjunctions and disjunctions. Its rendering closes each element that it opens.
use cadaver.Common.{[], ◌++◌}
use cadaver.Common.Text.{Bytes, codes}
use cadaver.Search.Grammar.{comparison, containing, enclosed}

mutual
  pub data Tree : Type 0 where
    compare : Bytes → Bytes → Bytes → Tree
    contains : Bytes → Tree
    negation : Tree → Tree
    all_of : Tree → Trees → Tree
    any_of : Tree → Trees → Tree

  pub data Trees : Type 0 where
    nil : Trees
    cons : Tree → Trees → Trees

unfoldable mutual
  pub render : Tree → Bytes
  render (compare xml_operator column_name value) = comparison xml_operator column_name value
  render (contains value) = containing value
  render (negation t) = enclosed (codes "not") (render t)
  render (all_of t ts) = enclosed (codes "and") (render t ++ render_all ts)
  render (any_of t ts) = enclosed (codes "or") (render t ++ render_all ts)

  pub render_all : Trees → Bytes
  render_all nil = []
  render_all (cons t ts) = render t ++ render_all ts
