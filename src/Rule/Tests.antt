-- ===== src/Rule/Tests.antt =====
-- Rules at concrete inputs.
use php_pecl_memcache_zynga.Prelude.{◌≡◌, ◌≢◌, refl, ◌++◌, [], ◌∷◌, true, some}
use php_pecl_memcache_zynga.Prelude.Int.{pos}
use php_pecl_memcache_zynga.Prelude.Bytes.{Bytes, bytes}
use php_pecl_memcache_zynga.Prelude.Numbers.{atoi}
use php_pecl_memcache_zynga.Rule.{
  host, flags, res_code, res_len, eq, gt, lt, seq, pm, and, or, Node, opnd, val, oprtr, branch,
  opnd_leaf, value_leaf, has_left, check_invalid_opr,
}
use php_pecl_memcache_zynga.Rule.Build.{build_tree, parse_rule, built, rejected, aborted}
use php_pecl_memcache_zynga.Rule.Eval.{LogRecord, evaluate_tree}
use php_pecl_memcache_zynga.Rule.Checked.{Checked, parse_rule-Checked}
use php_pecl_memcache_zynga.Rule.Meaning.{meaning, evaluate_parsed}
use php_pecl_memcache_zynga.Rule.Brackets.{Rule, compare, both, bracket, show, tree}
use php_pecl_memcache_zynga.Rule.Holds.{holds, evaluate-show}
use php_pecl_memcache_zynga.Rule.Priority.{Chain, last, more, show_chain, nest, build_tree-chain}
use php_pecl_memcache_zynga.Rule.Reject.{build_tree-aborted}
use php_pecl_memcache_zynga.Rule.NoAbort.{build_tree_no_abort}

abbrev text : Bytes
text = bytes "( host prefix web ) & ( statuscode > 3 | reslen < 100 )"

abbrev parsed : Node
parsed = branch and (branch pm (opnd_leaf host) (value_leaf (bytes "web"))) (
    branch or (branch gt (opnd_leaf res_code) (value_leaf (bytes "3")))
      (branch lt (opnd_leaf res_len) (value_leaf (bytes "100"))))

abbrev entry : LogRecord
entry = record {
  host_name = record { address = 4096; text = bytes "web12" };
  key_name = record { address = 8192; text = bytes "user:1" };
  command_name = record { address = 0; text = [] };
  flag_bits = pos 2;
  status_code = pos 1;
  response_time = 250;
  response_len = 12;
  serialize_time = 0;
  expiry_time = 3600;
}

abbrev sample : Rule
sample = both (compare host pm (bytes "web")) (compare res_code gt (bytes "3"))

abbrev chain : Chain
chain = more host pm (bytes "web") and (more flags eq (bytes "2") or (last res_len lt (bytes "5")))

parse_text : parse_rule text ≡ built parsed
unfolding parse_rule check_invalid_opr
parse_text = refl

evaluate_text : evaluate_tree (pos 7) entry parsed ≡ some true
unfolding evaluate_tree atoi
evaluate_text = refl

parse_errors : parse_rule (bytes "host &") ≡ rejected
unfolding parse_rule check_invalid_opr
parse_errors = refl

parse_rule-Checked_example : Checked parsed × (has_left parsed ≡ true)
parse_rule-Checked_example = parse_rule-Checked text parsed parse_text

evaluate_parsed_example : evaluate_tree (pos 7) entry parsed ≡ some (meaning (pos 7) entry parsed)
evaluate_parsed_example = evaluate_parsed (pos 7) entry text parsed parse_text

evaluate-show_example :
    (build_tree (bracket (show sample)) ≡ built (tree sample))
    × (evaluate_tree (pos 7) entry (tree sample) ≡ some (holds entry sample))
evaluate-show_example = evaluate-show (pos 7) entry sample (refl, refl)

build_tree-chain_example : build_tree (show_chain chain) ≡ built (nest chain)
build_tree-chain_example = build_tree-chain chain (refl, refl, (refl, refl, refl))

build_tree-aborted_example :
    build_tree (bracket (show sample) ++ (oprtr seq ∷ val (bytes "x") ∷ [])) ≡ aborted
build_tree-aborted_example = build_tree-aborted sample seq (bytes "x") (refl, refl) refl

build_tree_no_abort_example : build_tree (opnd flags ∷ oprtr gt ∷ val (bytes "1") ∷ []) ≢ aborted
build_tree_no_abort_example = build_tree_no_abort _ (tt, (refl, (tt, tt)))
