-- ===== src/Rule/Reject.antt =====
-- Rules that `buildTree` should refuse.
use php_pecl_memcache_zynga.Prelude.{◌≡◌, ◌∙◌, true, [], ◌∷◌, ◌++◌, arith}
use php_pecl_memcache_zynga.Prelude.Bytes.{Bytes}
use php_pecl_memcache_zynga.Rule.{
  OprType, str_type, val, oprtr, Node, value_leaf, has_left, aborts, check_invalid_opr,
  check_string_opr,
}
use php_pecl_memcache_zynga.Rule.Build.{on_operator, on_token, aborted, on_end, scan, build_tree}
use php_pecl_memcache_zynga.Rule.Brackets.{
  Rule, WellTyped, bracket, show, tree, stacks, scan-bracket, has_left-tree,
}

check_aborts :
    (op : OprType) (l r : Node)
    → str_type op ≡ true
    → has_left l ≡ true
    → check_invalid_opr op l r ≡ aborts
unfolding check_invalid_opr check_string_opr
check_aborts op l r h k = ground arith

text_operator_last :
    (op : OprType) (v : Bytes) (l : Node)
    → str_type op ≡ true
    → has_left l ≡ true
    → scan (oprtr op ∷ val v ∷ []) (stacks [] (l ∷ [])) ≡ aborted
unfolding scan on_token on_operator on_end
text_operator_last op v l h k = ground (arith, check_aborts op l (value_leaf v) h k)

-- A text operator behind a bracket fails the assertion of `checkInvalidOpr`: the process is aborted,
-- where the rule should be refused.
pub build_tree-aborted :
    (e : Rule) (op : OprType) (v : Bytes)
    → WellTyped e
    → str_type op ≡ true
    → build_tree (bracket (show e) ++ (oprtr op ∷ val v ∷ [])) ≡ aborted
unfolding build_tree
build_tree-aborted e op v w h =
    scan-bracket e w [] [] _ tt ∙ text_operator_last op v (tree e) h (has_left-tree e)
