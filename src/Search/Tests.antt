-- ===== src/Search/Tests.antt =====
-- Runs of the parser on concrete conditions, and instances of its theorems.
use cadaver.Common.{arith, suc, ◌≡◌, refl, [], length}
use cadaver.Common.Text.{codes, streq, strcaseeq, tolower}
use cadaver.Search.{Result, Ensures}
use cadaver.Search.Accepted.{search_condition-Accepts}
use cadaver.Search.Predicates.{Accepts}
use cadaver.Search.Grammar.{
  parsed, comparison, search_condition, predicate, contains_predicate, quoted_string, text_value,
  comparison_value, word_string, number, operator_translate,
}
use cadaver.Search.Trees.{Tree, Trees, render}
use cadaver.Search.Written.{Operator, written, predicate-comparison}
use Operator.{greater_equal}
use cadaver.Search.Words.{read_aword, first_word_equal, first_word_integer, match_fetch}
use Result.{ne_ok, ne_error}

nested_condition :
    search_condition 40 (codes "size > 5 and not (name like 'a' or x = b)")
    ≡ ne_ok (record {
      buf = render (
          Tree.all_of (Tree.compare (codes "gt") (codes "size") (codes "5")) (
            Trees.cons
              (Tree.negation (
                Tree.any_of
                  (Tree.compare (codes "like") (codes "name") (codes "a"))
                  (Trees.cons (Tree.compare (codes "eq") (codes "x") (codes "b")) Trees.nil)))
              Trees.nil));
      rest = [];
    })
unfolding search_condition predicate contains_predicate quoted_string text_value comparison_value
    word_string number operator_translate read_aword first_word_equal first_word_integer match_fetch
    streq strcaseeq tolower render
nested_condition = refl

-- The keyword is found in any case and then compared in its case.
upper_case_contains : search_condition 40 (codes "CONTAINS x") ≡ ne_error
unfolding search_condition predicate contains_predicate read_aword first_word_equal match_fetch
    streq strcaseeq tolower
upper_case_contains = refl

unequal : search_condition 40 (codes "a != b") ≡ ne_error
unfolding search_condition predicate comparison_value word_string operator_translate read_aword
    first_word_equal first_word_integer match_fetch streq strcaseeq tolower
unequal = refl

-- Markup in a value is copied as it stands.
markup_in_value :
    search_condition 40 (codes "a = <x>")
    ≡ ne_ok
        (record { buf = render (Tree.compare (codes "eq") (codes "a") (codes "<x>")); rest = [] })
unfolding search_condition predicate comparison_value word_string operator_translate read_aword
    first_word_equal first_word_integer match_fetch streq strcaseeq tolower render
markup_in_value = refl

search_condition-Accepts_example :
    Ensures
      (Accepts (codes "not (a = 1)"))
      (search_condition (suc (length (codes "not (a = 1)"))) (codes "not (a = 1)"))
search_condition-Accepts_example = search_condition-Accepts (codes "not (a = 1)")

predicate-comparison_example :
    predicate (written (codes "size") greater_equal (codes "<5>") (codes " or x = 1"))
    ≡ ne_ok (parsed (comparison (codes "gte") (codes "size") (codes "<5>")) (codes " or x = 1"))
unfolding strcaseeq tolower
predicate-comparison_example =
    predicate-comparison b's' (codes "ize") greater_equal (codes "<5>") (codes " or x = 1") refl
      (refl, (refl, (refl, tt))) (omega arith) refl (refl, (refl, (refl, tt)))
