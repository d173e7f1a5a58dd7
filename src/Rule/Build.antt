-- ===== src/Rule/Build.antt =====
-- `exprParser::buildTree` of parse.cpp: two stacks, of operators and of operands.
use php_pecl_memcache_zynga.Prelude.{Bool, true, false, ◌||◌, List, [], ◌∷◌, leb, if◌then◌else◌}
use php_pecl_memcache_zynga.Prelude.Bytes.{Bytes}
use php_pecl_memcache_zynga.Rule.{
  OprType, brcs_str, priority, Token, opnd, val, oprtr, Node, opnd_leaf, value_leaf, branch,
  Verdict, valid, invalid, aborts, check_invalid_opr, words, get_tokens,
}

-- `oprStk` and `opndStk`, top first. A node on `oprStk` has no children yet: its operator is all.
pub record Stacks : Type 0 where
  pub oprs : List OprType
  pub opnds : List Node

-- What a round of the loop leaves: the stacks, `success = false` (the next round frees all nodes and
-- returns false), or a failed assertion.
pub data Outcome : Type 0 where
  go : Stacks → Outcome
  bad : Outcome
  abort : Outcome

unfoldable pub after_check : Verdict → Stacks → Outcome
after_check valid st = go st
after_check invalid st = bad
after_check aborts st = abort

infixl 5 ◌>>=◌
abbrev pub ◌>>=◌ : Outcome → (Stacks → Outcome) → Outcome
go st >>= f = f st
bad >>= f = bad
abort >>= f = abort

-- The body that is written out three times: the top operator takes the two top operands. Where there
-- are fewer, the rule is refused.
unfoldable pub reduce : OprType → List OprType → List Node → Outcome
unfolding after_check
reduce op oprs (r ∷ l ∷ ns) =
    after_check (check_invalid_opr op l r) (record { oprs = oprs; opnds = branch op l r ∷ ns })
reduce op oprs _ = bad

abbrev pub is_open : OprType → Bool
is_open brcs_str = true
is_open _ = false

abbrev pub push_opr : OprType → Stacks → Outcome
push_opr op st = go (record st { oprs = op ∷ st.oprs })

-- `case OPRTR` up to BrcsStr: one reduction at most before the operator is pushed.
unfoldable pub on_operator : OprType → List OprType → List Node → Outcome
unfolding reduce
on_operator op [] ns = go (record { oprs = op ∷ []; opnds = ns })
on_operator op (top ∷ os) ns =
    if leb (priority top) (priority op) || is_open top
    then go (record { oprs = op ∷ top ∷ os; opnds = ns })
    else reduce top os ns >>= push_opr op

-- `case OPRTR` for BrcsStp: reduce down to the open bracket and drop it.
unfoldable pub on_close : List OprType → List Node → Outcome
unfolding reduce
on_close [] ns = bad
on_close (op ∷ os) (r ∷ l ∷ ns) =
    let reduced : Outcome = elim (check_invalid_opr op l r) [
      | valid ↦ on_close os (branch op l r ∷ ns)
      | invalid ↦ bad
      | aborts ↦ abort
    ] in
    if is_open op then go (record { oprs = os; opnds = r ∷ l ∷ ns }) else reduced
on_close (op ∷ os) ns = if is_open op then go (record { oprs = os; opnds = ns }) else bad

unfoldable pub on_token : Token → Stacks → Outcome
unfolding on_operator on_close
on_token (opnd f) st = go (record st { opnds = opnd_leaf f ∷ st.opnds })
on_token (val s) st = go (record st { opnds = value_leaf s ∷ st.opnds })
on_token (oprtr op) st =
    if leb (priority op) (priority brcs_str)
    then on_operator op st.oprs st.opnds
    else on_close st.oprs st.opnds

-- What `buildTree` ends with: `root` and true, false, or the process is aborted.
pub data Built : Type 0 where
  built : Node → Built
  rejected : Built
  aborted : Built

unfoldable pub only_tree : List Node → Built
only_tree (branch op l r ∷ []) = built (branch op l r)
only_tree _ = rejected

-- `case END`
unfoldable pub on_end : List OprType → List Node → Built
unfolding only_tree
on_end [] ns = only_tree ns
on_end (op ∷ os) (r ∷ l ∷ ns) = elim (check_invalid_opr op l r) [
  | valid ↦ on_end os (branch op l r ∷ ns)
  | invalid ↦ rejected
  | aborts ↦ aborted
]
on_end (op ∷ os) _ = rejected

unfoldable pub scan : List Token → Stacks → Built
unfolding on_token on_end
scan [] st = on_end st.oprs st.opnds
scan (t ∷ ts) st = elim (on_token t st) [ go st' ↦ scan ts st' | bad ↦ rejected | abort ↦ aborted ]

-- `exprParser::buildTree`
unfoldable pub build_tree : List Token → Built
unfolding scan
build_tree ts = scan ts (record { oprs = []; opnds = [] })

-- The constructor of `exprParser` and `buildTree`, on the text of a rule.
unfoldable pub parse_rule : Bytes → Built
unfolding words get_tokens build_tree
parse_rule s = build_tree (get_tokens (words s))
