-- ===== src/Rule/Meaning.antt =====
-- The answer of a rule with all its parts evaluated, and `evaluateTree`.
use php_pecl_memcache_zynga.Prelude.{
  ◌≡◌, refl, Bool, true, false, not, ◌&&◌, ◌||◌, [], arith, some, ◌==◌, if◌then◌else◌,
}
use php_pecl_memcache_zynga.Prelude.Int.{ℤ, ltb_ℤ}
use php_pecl_memcache_zynga.Prelude.Bytes.{Bytes, bytes_eq, starts_with, has_infix}
use php_pecl_memcache_zynga.Prelude.Numbers.{atoi}
use php_pecl_memcache_zynga.Rule.{
  OprType, or, and, pm, eq, ctn, gt, lt, str_type, Field, host, key, Node, opnd_leaf, value_leaf,
  branch, has_left, valid, check_invalid_opr, check_string_opr, check_other_opr,
}
use php_pecl_memcache_zynga.Rule.Build.{parse_rule, built}
use php_pecl_memcache_zynga.Rule.Checked.{Checked, has_class, parse_rule-Checked}
use php_pecl_memcache_zynga.Rule.Eval.{
  CString, LogRecord, get_int, get_string, eval_int, eval_str, evaluate_leaves, eq_ℤ, first_operand,
  evaluate_tree,
}

-- The text of a `char *` field.
abbrev pub text_of : LogRecord → Field → CString
text_of d host = d.host_name
text_of d key = d.key_name
text_of d _ = d.command_name

abbrev pub compare_text : OprType → Bytes → Bytes → Bool
compare_text ctn a b = has_infix b a
compare_text pm a b = starts_with b a
compare_text _ a b = bytes_eq a b

abbrev pub compare_int : OprType → ℤ → ℤ → Bool
compare_int eq a b = eq_ℤ a b
compare_int gt a b = ltb_ℤ b a
compare_int lt a b = ltb_ℤ a b
compare_int _ a b = false

-- Operators between two answers; `>` and `<` order false before true.
abbrev pub combine : OprType → Bool → Bool → Bool
combine and a b = a && b
combine or a b = a || b
combine eq a b = if a then b else not b
combine gt a b = a && not b
combine lt a b = not a && b
combine _ a b = false

-- What stands on the right of a comparison: a field there counts as the empty text, and as `junk`.
abbrev pub right_text : Node → Bytes
right_text (value_leaf s) = s
right_text _ = []

abbrev pub right_int : ℤ → Node → ℤ
right_int junk (value_leaf s) = atoi s
right_int junk _ = junk

abbrev pub compare_field : ℤ → LogRecord → OprType → Field → Node → Bool
compare_field junk d op f r =
    if str_type op
    then not ((text_of d f).address == 0) && compare_text op (text_of d f).text (right_text r)
    else compare_int op (get_int d f) (right_int junk r)

-- The answer of a rule, every part of it evaluated.
unfoldable pub meaning : ℤ → LogRecord → Node → Bool
meaning junk d (branch op (branch op' l' r') r) =
    combine op (meaning junk d (branch op' l' r')) (meaning junk d r)
meaning junk d (branch op (opnd_leaf f) r) = compare_field junk d op f r
meaning junk d _ = false

no_value : (op : OprType) (s : Bytes) (r : Node) → check_invalid_opr op (value_leaf s) r ≡ valid → ⊥
unfolding check_invalid_opr check_string_opr check_other_opr
no_value op s r h = ground arith

module _ (junk : ℤ) (d : LogRecord) where
  leaves_lem :
      (op : OprType) (f : Field) (r : Node)
      → has_class op ≡ true
      → check_invalid_opr op (opnd_leaf f) r ≡ valid
      → evaluate_leaves junk d op (opnd_leaf f) r ≡ some (compare_field junk d op f r)
  unfolding evaluate_leaves check_invalid_opr check_string_opr check_other_opr get_string eval_int
      eval_str
  leaves_lem op f (branch op' l r) c h = ground arith
  leaves_lem op f (value_leaf s) c h = ground arith
  leaves_lem op f (opnd_leaf g) c h = ground arith

  -- Two answers under an operator that reads integers: the second is not needed where the first one
  -- decides.
  combine_lem :
      (op : OprType) (a b : Bool)
      → has_class op ≡ true
      → str_type op ≡ false
      → first_operand op (some a) (some b) ≡ some (combine op a b)
  unfolding first_operand
  combine_lem op true true c h = ground arith
  combine_lem op true false c h = ground arith
  combine_lem op false true c h = ground arith
  combine_lem op false false c h = ground arith

  checked_branch :
      (op op' : OprType) (l r n : Node)
      → check_invalid_opr op (branch op' l r) n ≡ valid
      → (str_type op ≡ false) × (has_left n ≡ true)
  unfolding check_invalid_opr check_string_opr check_other_opr
  checked_branch op op' l r n h = ground arith

  -- An accepted tree evaluates to an answer, without a fault, and the answer is its meaning.
  pub evaluate_tree_lem :
      (t : Node) → Checked t → has_left t ≡ true → evaluate_tree junk d t ≡ some (meaning junk d t)
  unfolding evaluate_tree meaning
  evaluate_tree_lem (branch op (branch op' l' r') r) c h =
      let (ns, hr) = checked_branch op op' l' r' r c.1 in
      rw (evaluate_tree_lem (branch op' l' r') c.2 refl, evaluate_tree_lem r c.3 hr)
        (combine_lem op _ _ c.0 ns)
  evaluate_tree_lem (branch op (opnd_leaf f) r) c h = leaves_lem op f r c.0 c.1
  evaluate_tree_lem (branch op (value_leaf s) r) c h = absurd (no_value op s r c.1)
  evaluate_tree_lem (opnd_leaf f) c h = cc
  evaluate_tree_lem (value_leaf s) c h = cc

-- The text of a rule that is accepted: on every log record its evaluation ends with an answer, that of
-- the rule with all its parts evaluated. `junk` is what the unset integer of a field on the right of a
-- comparison holds.
pub evaluate_parsed :
    (junk : ℤ) (d : LogRecord) (s : Bytes) (t : Node)
    → parse_rule s ≡ built t
    → evaluate_tree junk d t ≡ some (meaning junk d t)
evaluate_parsed junk d s t e =
    let (c, h) = parse_rule-Checked s t e in evaluate_tree_lem junk d t c h
