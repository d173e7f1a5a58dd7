-- ===== src/Rule/Holds.antt =====
-- From the tokens of a bracketed rule to its answer on a log record.
use php_pecl_memcache_zynga.Prelude.{
  ◌≡◌, refl, ap, ap₂, ◌∙◌, Bool, true, not, ◌&&◌, ◌||◌, arith, some, ◌==◌, if◌then◌else◌,
}
use php_pecl_memcache_zynga.Prelude.Int.{ℤ}
use php_pecl_memcache_zynga.Prelude.Numbers.{atoi}
use php_pecl_memcache_zynga.Rule.{
  OprType, and, or, str_type, Field, Node, branch, opnd_leaf, value_leaf, has_left,
}
use php_pecl_memcache_zynga.Rule.Build.{build_tree, built}
use php_pecl_memcache_zynga.Rule.Eval.{LogRecord, get_int, evaluate_tree}
use php_pecl_memcache_zynga.Rule.Checked.{Checked, has_class}
use php_pecl_memcache_zynga.Rule.Meaning.{
  text_of, compare_text, compare_int, combine, meaning, evaluate_tree_lem,
}
use php_pecl_memcache_zynga.Rule.Brackets.{
  Rule, compare, both, either, WellTyped, bracket, show, tree, build_tree-show, compare_valid,
  check_branches, has_left-tree, is_text, is_comparison,
}

-- The answer of a rule: a text comparison fails at a NULL field.
abbrev pub holds : LogRecord → Rule → Bool
holds d (compare f op v) =
    if str_type op
    then not ((text_of d f).address == 0) && compare_text op (text_of d f).text v
    else compare_int op (get_int d f) (atoi v)
holds d (both a b) = holds d a && holds d b
holds d (either a b) = holds d a || holds d b

tree-Checked : (e : Rule) → WellTyped e → Checked (tree e)
tree-Checked (compare f op v) w = (classed op f w, compare_valid f op v w, tt, tt)
  where
    classed :
        (op : OprType) (f : Field)
        → (if str_type op then is_text f else is_comparison op) ≡ true
        → has_class op ≡ true
    classed op f h = ground arith
tree-Checked (both a b) w = (
  refl,
  check_branches and (tree a) (tree b) refl (has_left-tree a) (has_left-tree b),
  tree-Checked a w.0,
  tree-Checked b w.1,
)
tree-Checked (either a b) w = (
  refl,
  check_branches or (tree a) (tree b) refl (has_left-tree a) (has_left-tree b),
  tree-Checked a w.0,
  tree-Checked b w.1,
)

meaning_branch :
    (junk : ℤ) (d : LogRecord) (op : OprType) (l r : Node)
    → has_left l ≡ true
    → meaning junk d (branch op l r) ≡ combine op (meaning junk d l) (meaning junk d r)
unfolding meaning
meaning_branch junk d op (branch op' l r) n h = refl
meaning_branch junk d op (opnd_leaf f) n h = cc
meaning_branch junk d op (value_leaf s) n h = cc

meaning-tree : (junk : ℤ) (d : LogRecord) (e : Rule) → meaning junk d (tree e) ≡ holds d e
unfolding meaning
meaning-tree junk d (compare f op v) = refl
meaning-tree junk d (both a b) =
    meaning_branch junk d and (tree a) (tree b) (has_left-tree a)
    ∙ ap₂ ◌&&◌ (meaning-tree junk d a) (meaning-tree junk d b)
meaning-tree junk d (either a b) =
    meaning_branch junk d or (tree a) (tree b) (has_left-tree a)
    ∙ ap₂ ◌||◌ (meaning-tree junk d a) (meaning-tree junk d b)

-- A well-typed rule in brackets is accepted, and evaluating its tree on any log record gives the
-- rule's answer, whatever unset memory holds.
pub evaluate-show :
    (junk : ℤ) (d : LogRecord) (e : Rule)
    → WellTyped e
    → (build_tree (bracket (show e)) ≡ built (tree e))
      × (evaluate_tree junk d (tree e) ≡ some (holds d e))
evaluate-show junk d e w = (
  build_tree-show e w,
  evaluate_tree_lem junk d (tree e) (tree-Checked e w) (has_left-tree e)
      ∙ ap some (meaning-tree junk d e),
)
