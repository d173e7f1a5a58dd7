-- ===== src/Rule.antt =====
-- parse.cpp and include/parser.h: the filter rules of the request log. The lexer and the syntax tree.
pub mod Build
pub mod Eval
pub mod Meaning
pub mod Checked
pub mod Brackets
pub mod Holds
pub mod Priority
pub mod Reject
pub mod NoAbort
mod Tests
use php_pecl_memcache_zynga.Prelude.{
  ℕ, ◌+◌, Bool, true, false, ◌||◌, List, [], ◌∷◌, Option, none, some, leb, ltb, if◌then◌else◌,
}
use php_pecl_memcache_zynga.Prelude.Bytes.{Bytes, bytes, bytes_eq, is_space}

-- `enum oprType`, in its order
pub data OprType : Type 0 where
  or and pm eq neq ctn gt lt seq brcs_str brcs_stp : OprType

-- The number that stands for the enumerator: the order is the priority.
abbrev pub priority : OprType → ℕ
priority or = 0
priority and = 1
priority pm = 2
priority eq = 3
priority neq = 4
priority ctn = 5
priority gt = 6
priority lt = 7
priority seq = 8
priority brcs_str = 9
priority brcs_stp = 10

-- `opr::strType` as the constructors of the operator classes set it. (No class is made for NEQ.)
abbrev pub str_type : OprType → Bool
str_type pm = true
str_type ctn = true
str_type seq = true
str_type _ = false

-- `enum field_type`
pub data FieldType : Type 0 where
  inval string number : FieldType

-- RULE_FIELDS: the field that an `off_t` into `mc_logger_t` stands for
pub data Field : Type 0 where
  host key command flags res_code res_time res_len serial_time expiry : Field

abbrev pub field_type : Field → FieldType
field_type host = string
field_type key = string
field_type command = string
field_type _ = number

-- `token`: OPRND, VALUE, OPRTR; END is the end of the list
pub data Token : Type 0 where
  opnd : Field → Token
  val : Bytes → Token
  oprtr : OprType → Token

-- The chain of comparisons that the macro `__TN__` writes over RULE_FIELDS.
pub field_named : Bytes → Option Field
field_named s =
    if bytes_eq s (bytes "host")
    then some host
    else if bytes_eq s (bytes "key")
    then some key
    else if bytes_eq s (bytes "command")
    then some command
    else if bytes_eq s (bytes "flags")
    then some flags
    else if bytes_eq s (bytes "statuscode")
    then some res_code
    else if bytes_eq s (bytes "restime")
    then some res_time
    else if bytes_eq s (bytes "reslen")
    then some res_len
    else if bytes_eq s (bytes "sertime")
    then some serial_time
    else if bytes_eq s (bytes "expiry")
    then some expiry
    else none

pub opr_named : Bytes → Option OprType
opr_named s =
    if bytes_eq s (bytes ">")
    then some gt
    else if bytes_eq s (bytes "<")
    then some lt
    else if bytes_eq s (bytes "&")
    then some and
    else if bytes_eq s (bytes "|")
    then some or
    else if bytes_eq s (bytes "(")
    then some brcs_str
    else if bytes_eq s (bytes ")")
    then some brcs_stp
    else if bytes_eq s (bytes "=")
    then some eq
    else if bytes_eq s (bytes "eq") || bytes_eq s (bytes "EQ")
    then some seq
    else if bytes_eq s (bytes "prefix") || bytes_eq s (bytes "PREFIX")
    then some pm
    else if bytes_eq s (bytes "contains") || bytes_eq s (bytes "CONTAINS")
    then some ctn
    else none

pub operator_or_value : Bytes → Option OprType → Token
operator_or_value s none = val s
operator_or_value s (some op) = oprtr op

pub field_or_operator : Bytes → Option Field → Token
unfolding opr_named operator_or_value
field_or_operator s none = operator_or_value s (opr_named s)
field_or_operator s (some f) = opnd f

-- `exprParser::getNextToken` on one word
pub get_token : Bytes → Token
unfolding field_named field_or_operator
get_token s = field_or_operator s (field_named s)

put_word : Bytes → List Bytes → List Bytes
put_word [] ws = ws
put_word (c ∷ cs) ws = (c ∷ cs) ∷ ws

add_char : ℕ → Bytes × List Bytes → Bytes × List Bytes
unfolding put_word
add_char c (w, ws) = if is_space c then ([], put_word w ws) else (c ∷ w, ws)

-- The first word, which may go on to the left, and the others.
split_words : Bytes → Bytes × List Bytes
unfolding add_char
split_words [] = ([], [])
split_words (c ∷ cs) = add_char c (split_words cs)

-- `copy(istream_iterator<string>(iss), …)`: the words between blanks
pub words : Bytes → List Bytes
unfolding split_words put_word
words s = let (w, ws) = split_words s in put_word w ws

pub get_tokens : List Bytes → List Token
unfolding get_token
get_tokens [] = []
get_tokens (w ∷ ws) = get_token w ∷ get_tokens ws

-- `genNode`, `leaf` and `nonLeaf`
pub data Node : Type 0 where
  opnd_leaf : Field → Node
  value_leaf : Bytes → Node
  branch : OprType → Node → Node → Node

-- `node->left != NULL`
abbrev pub has_left : Node → Bool
has_left (branch op l r) = true
has_left _ = false

-- What `exprParser::checkInvalidOpr` answers; `aborts` is a failed assertion.
pub data Verdict : Type 0 where
  valid invalid aborts : Verdict

abbrev pub verdict_of : Bool → Verdict
verdict_of true = valid
verdict_of false = invalid

abbrev same_kind : Node → Node → Bool
same_kind l r = if has_left l then has_left r else if has_left r then false else true

check_string_opr : Node → Node → Verdict
check_string_opr (branch op l' r') r = aborts
check_string_opr (value_leaf s) r = invalid
check_string_opr (opnd_leaf f) r = elim (field_type f) [
  | string ↦ verdict_of (same_kind (opnd_leaf f) r)
  | _ ↦ invalid
]

check_other_opr : OprType → Node → Node → Verdict
check_other_opr op (branch op' l' r') r = verdict_of (same_kind (branch op' l' r') r)
check_other_opr op (value_leaf s) r = invalid
check_other_opr or (opnd_leaf f) r = invalid
check_other_opr and (opnd_leaf f) r = invalid
check_other_opr op (opnd_leaf f) r = verdict_of (same_kind (opnd_leaf f) r)

-- `exprParser::checkInvalidOpr`
pub check_invalid_opr : OprType → Node → Node → Verdict
unfolding check_string_opr check_other_opr
check_invalid_opr op l r = if str_type op then check_string_opr l r else check_other_opr op l r
