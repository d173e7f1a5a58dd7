-- ===== src/Rule/Eval.antt =====
-- Evaluation of a rule: the operator classes of include/parser.h and `exprParser::evaluateTree`.
use Prim.Native.Nat.{bit_and, bit_or}
use php_pecl_memcache_zynga.Prelude.{
  ℕ, ◌-◌, ◌%◌, ◌^◌, Bool, true, false, not, Option, none, some, [], ltb, ◌==◌, if◌then◌else◌,
}
use php_pecl_memcache_zynga.Prelude.Int.{ℤ, pos, negsuc, ltb_ℤ}
use php_pecl_memcache_zynga.Prelude.Bytes.{Bytes, bytes_eq, starts_with, has_infix}
use php_pecl_memcache_zynga.Prelude.Numbers.{atoi}
use php_pecl_memcache_zynga.Rule.{
  OprType, or, and, pm, eq, ctn, gt, lt, seq, brcs_str, brcs_stp, str_type, Field, host, key,
  command, flags, res_code, res_time, res_len, serial_time, expiry, Node, opnd_leaf, value_leaf,
  branch,
}

-- A `char *`: its address, 0 for NULL, and the text that stands there.
pub record CString : Type 0 where
  pub address : ℕ
  pub text : Bytes

-- The part of `mc_logger_t` that rules read. The unsigned fields are numbers below 2 ^ 32.
pub record LogRecord : Type 0 where
  pub host_name : CString
  pub key_name : CString
  pub command_name : CString
  pub flag_bits : ℤ
  pub status_code : ℤ
  pub response_time : ℕ
  pub response_len : ℕ
  pub serialize_time : ℕ
  pub expiry_time : ℕ

-- The 32 low bits of a word, read as an `int`.
abbrev pub as_int : ℕ → ℤ
as_int u = let w = u % 2 ^ 32 in if ltb w (2 ^ 31) then pos w else negsuc (2 ^ 32 - 1 - w)

-- `GET_VALUE(d, offset, int)`; at a `char *` field it reads the low half of the address.
unfoldable pub get_int : LogRecord → Field → ℤ
get_int d host = as_int d.host_name.address
get_int d key = as_int d.key_name.address
get_int d command = as_int d.command_name.address
get_int d flags = d.flag_bits
get_int d res_code = d.status_code
get_int d res_time = as_int d.response_time
get_int d res_len = as_int d.response_len
get_int d serial_time = as_int d.serialize_time
get_int d expiry = as_int d.expiry_time

-- `GET_VALUE(d, offset, char *)`; `none` where the field is no pointer.
unfoldable pub get_string : LogRecord → Field → Option CString
get_string d host = some d.host_name
get_string d key = some d.key_name
get_string d command = some d.command_name
get_string d _ = none

abbrev to_word : ℤ → ℕ
to_word (pos n) = n % 2 ^ 32
to_word (negsuc n) = 2 ^ 32 - 1 - n % 2 ^ 32

abbrev pub eq_ℤ : ℤ → ℤ → Bool
eq_ℤ (pos m) (pos n) = m == n
eq_ℤ (negsuc m) (negsuc n) = m == n
eq_ℤ _ _ = false

-- `op->eval(int, int)`; `none` where the class overrides only the other `eval`, so that the base's
-- empty body is left without a value. No node has the operator NEQ or BrcsStp.
unfoldable pub eval_int : OprType → ℤ → ℤ → Option Bool
eval_int eq a b = some (eq_ℤ a b)
eval_int gt a b = some (ltb_ℤ b a)
eval_int lt a b = some (ltb_ℤ a b)
eval_int and a b = some (not (bit_and (to_word a) (to_word b) == 0))
eval_int or a b = some (not (bit_or (to_word a) (to_word b) == 0))
eval_int brcs_str a b = some false
eval_int brcs_stp a b = some false
eval_int _ a b = none

-- `op->eval(char *, std::string)`
unfoldable pub eval_str : OprType → CString → Bytes → Option Bool
eval_str ctn a b = some (if a.address == 0 then false else has_infix b a.text)
eval_str seq a b = some (if a.address == 0 then false else bytes_eq a.text b)
eval_str pm a b = some (if a.address == 0 then false else starts_with b a.text)
eval_str _ a b = none

unfoldable pub eval_str_opt : OprType → Option CString → Bytes → Option Bool
unfolding eval_str
eval_str_opt op none b = none
eval_str_opt op (some a) b = eval_str op a b

abbrev pub to_int : Bool → ℤ
to_int true = pos 1
to_int false = pos 0

-- `nonLeaf::shortcircuit`
unfoldable pub shortcircuit : OprType → Bool → Bool
shortcircuit or result = result
shortcircuit and result = not result
shortcircuit _ result = false

unfoldable pub second_operand : OprType → Bool → Option Bool → Option Bool
unfolding eval_int
second_operand op r1 none = none
second_operand op r1 (some r2) = eval_int op (to_int r1) (to_int r2)

unfoldable pub first_operand : OprType → Option Bool → Option Bool → Option Bool
unfolding shortcircuit second_operand
first_operand op none second = none
first_operand op (some r1) second =
    if shortcircuit op r1 then some r1 else second_operand op r1 second

-- `leaf::val` is set from the text of a value, and never for a field: it then holds `junk`.
module _ (junk : ℤ) where
  unfoldable pub leaf_int : Node → Option ℤ
  leaf_int (value_leaf s) = some (atoi s)
  leaf_int (opnd_leaf f) = some junk
  leaf_int (branch op l r) = none

  -- `genNode::str` stays empty for a field.
  unfoldable pub leaf_string : Node → Option Bytes
  leaf_string (value_leaf s) = some s
  leaf_string (opnd_leaf f) = some []
  leaf_string (branch op l r) = none

  unfoldable pub int_of : OprType → ℤ → Option ℤ → Option Bool
  unfolding eval_int
  int_of op a none = none
  int_of op a (some b) = eval_int op a b

  unfoldable pub str_of : OprType → Option CString → Option Bytes → Option Bool
  unfolding eval_str_opt
  str_of op a none = none
  str_of op a (some b) = eval_str_opt op a b

  -- `nonLeaf::evaluate(data *, leaf *, leaf *)`. `none` is a cast of a node that is no leaf, or a
  -- read of `off` where it was never set.
  unfoldable pub evaluate_leaves : LogRecord → OprType → Node → Node → Option Bool
  unfolding int_of str_of leaf_int leaf_string get_int get_string
  evaluate_leaves d op (opnd_leaf f) r =
      if str_type op
      then str_of op (get_string d f) (leaf_string r)
      else int_of op (get_int d f) (leaf_int r)
  evaluate_leaves d op _ r = none

  -- `exprParser::evaluateTree`; a leaf has no left child to read.
  unfoldable pub evaluate_tree : LogRecord → Node → Option Bool
  unfolding evaluate_leaves first_operand
  evaluate_tree d (branch op (branch op' l' r') r) =
      first_operand op (evaluate_tree d (branch op' l' r')) (evaluate_tree d r)
  evaluate_tree d (branch op l r) = evaluate_leaves d op l r
  evaluate_tree d _ = none
