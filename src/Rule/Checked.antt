-- ===== src/Rule/Checked.antt =====
-- The nodes of the trees that `buildTree` accepts.
use php_pecl_memcache_zynga.Prelude.{
  ◌≡◌, refl, Bool, true, false, List, [], ◌∷◌, arith, Bool-cases, inl, inr, Option, none, some, leb,
  ◌||◌, if◌then◌else◌,
}
use mathlib.Core.Path.{subst}
use php_pecl_memcache_zynga.Prelude.Bytes.{Bytes}
use php_pecl_memcache_zynga.Rule.{
  OprType, neq, brcs_str, priority, Field, Token, opnd, val, oprtr, Node, branch, has_left, Verdict,
  valid, invalid, aborts, check_invalid_opr, words, get_tokens, get_token, opr_named, field_named,
  operator_or_value, field_or_operator,
}
use php_pecl_memcache_zynga.Rule.Build.{
  Stacks, Outcome, go, bad, abort, reduce, on_operator, on_close, on_token, Built, built, rejected,
  aborted, only_tree, on_end, scan, build_tree, parse_rule, push_opr, ◌>>=◌, after_check, is_open,
}

-- `oprFactory` has a class for the operator.
abbrev pub has_class : OprType → Bool
has_class neq = false
has_class _ = true

abbrev pub Checked : Node → Type 0
Checked (branch op l r) =
    (has_class op ≡ true) × (check_invalid_opr op l r ≡ valid) × Checked l × Checked r
Checked _ = Unit {0}

abbrev CheckedAll : List Node → Type 0
CheckedAll [] = Unit {0}
CheckedAll (n ∷ ns) = Checked n × CheckedAll ns

abbrev ClassAll : List OprType → Type 0
ClassAll [] = Unit {0}
ClassAll (op ∷ os) = (has_class op ≡ true) × ClassAll os

abbrev CheckedStacks : Stacks → Type 0
CheckedStacks st = ClassAll st.oprs × CheckedAll st.opnds

abbrev CheckedOutcome : Outcome → Type 0
CheckedOutcome (go st) = CheckedStacks st
CheckedOutcome _ = Unit {0}

abbrev CheckedBuilt : Built → Type 0
CheckedBuilt (built t) = Checked t × (has_left t ≡ true)
CheckedBuilt _ = Unit {0}

abbrev ClassToken : Token → Type 0
ClassToken (oprtr op) = has_class op ≡ true
ClassToken _ = Unit {0}

abbrev pub ClassTokens : List Token → Type 0
ClassTokens [] = Unit {0}
ClassTokens (t ∷ ts) = ClassToken t × ClassTokens ts

reduce-Checked :
    (op : OprType) (os : List OprType) (ns : List Node)
    → has_class op ≡ true
    → ClassAll os
    → CheckedAll ns
    → CheckedOutcome (reduce op os ns)
unfolding reduce
reduce-Checked op os [] c h k = tt
reduce-Checked op os (r ∷ []) c h k = tt
reduce-Checked op os (r ∷ l ∷ ns) c h k = go_check (check_invalid_opr op l r) refl
  where
    go_check :
        (v : Verdict)
        → check_invalid_opr op l r ≡ v
        → CheckedOutcome (after_check v (record { oprs = os; opnds = branch op l r ∷ ns }))
    go_check valid e = (h, ((c, e, k.1.0, k.0), k.1.1))
    go_check invalid e = tt
    go_check aborts e = tt

push_opr-Checked :
    (op : OprType) (m : Outcome)
    → has_class op ≡ true
    → CheckedOutcome m
    → CheckedOutcome (m >>= push_opr op)
push_opr-Checked op (go st) c h = ((c, h.0), h.1)
push_opr-Checked op bad c h = tt
push_opr-Checked op abort c h = tt

on_operator-Checked :
    (op : OprType) (os : List OprType) (ns : List Node)
    → has_class op ≡ true
    → ClassAll os
    → CheckedAll ns
    → CheckedOutcome (on_operator op os ns)
unfolding on_operator
on_operator-Checked op [] ns c h k = ((c, tt), k)
on_operator-Checked op (top ∷ os) ns c h k =
    elim (Bool-cases (leb (priority top) (priority op) || is_open top)) [
      | inl e ↦ rw e ((c, h), k)
      | inr e ↦ rw e (push_opr-Checked op (reduce top os ns) c (reduce-Checked top os ns h.0 h.1 k))
    ]

-- A rule for what waits on a verdict.
verdict_elim :
    (v : Verdict) (m : Outcome)
    → (v ≡ valid → CheckedOutcome m)
    → CheckedOutcome (elim v [ valid ↦ m | invalid ↦ bad | aborts ↦ abort ])
verdict_elim valid m h = h refl
verdict_elim invalid m h = tt
verdict_elim aborts m h = tt

if-Checked :
    (b : Bool) (m n : Outcome)
    → CheckedOutcome m
    → CheckedOutcome n
    → CheckedOutcome (if b then m else n)
if-Checked true m n h k = h
if-Checked false m n h k = k

on_close-Checked :
    (os : List OprType) (ns : List Node)
    → ClassAll os
    → CheckedAll ns
    → CheckedOutcome (on_close os ns)
unfolding on_close
on_close-Checked [] ns h k = tt
on_close-Checked (op ∷ os) [] h k = if-Checked (is_open op) _ _ (h.1, k) tt
on_close-Checked (op ∷ os) (r ∷ []) h k = if-Checked (is_open op) _ _ (h.1, k) tt
on_close-Checked (op ∷ os) (r ∷ l ∷ ns) h k =
    if-Checked (is_open op) _ _ (h.1, k)
      (verdict_elim (check_invalid_opr op l r) (on_close os (branch op l r ∷ ns))
        (λ e. on_close-Checked os (branch op l r ∷ ns) h.1 ((h.0, e, k.1.0, k.0), k.1.1)))

on_token-Checked :
    (t : Token) (st : Stacks) → ClassToken t → CheckedStacks st → CheckedOutcome (on_token t st)
unfolding on_token
on_token-Checked (opnd f) st c h = (h.0, (tt, h.1))
on_token-Checked (val s) st c h = (h.0, (tt, h.1))
on_token-Checked (oprtr op) st c h =
    if-Checked (leb (priority op) (priority brcs_str)) _ _
      (on_operator-Checked op st.oprs st.opnds c h.0 h.1)
      (on_close-Checked st.oprs st.opnds h.0 h.1)

only_tree-Checked : (ns : List Node) → CheckedAll ns → CheckedBuilt (only_tree ns)
unfolding only_tree
only_tree-Checked (branch op l r ∷ []) k = (k.0, refl)
only_tree-Checked _ k = tt

on_end-Checked :
    (os : List OprType) (ns : List Node) → ClassAll os → CheckedAll ns → CheckedBuilt (on_end os ns)
unfolding on_end
on_end-Checked [] ns h k = only_tree-Checked ns k
on_end-Checked (op ∷ os) [] h k = tt
on_end-Checked (op ∷ os) (r ∷ []) h k = tt
on_end-Checked (op ∷ os) (r ∷ l ∷ ns) h k =
    by_verdict (check_invalid_opr op l r)
      (λ e. on_end-Checked os (branch op l r ∷ ns) h.1 ((h.0, e, k.1.0, k.0), k.1.1))
  where
    by_verdict :
        (v : Verdict)
        → (v ≡ valid → CheckedBuilt (on_end os (branch op l r ∷ ns)))
        → CheckedBuilt (elim v [
          | valid ↦ on_end os (branch op l r ∷ ns)
          | invalid ↦ rejected
          | aborts ↦ aborted
        ])
    by_verdict valid f = f refl
    by_verdict invalid f = tt
    by_verdict aborts f = tt

scan-Checked :
    (ts : List Token) (st : Stacks) → ClassTokens ts → CheckedStacks st → CheckedBuilt (scan ts st)
unfolding scan
scan-Checked [] st c h = on_end-Checked st.oprs st.opnds h.0 h.1
scan-Checked (t ∷ ts) st c h =
    by_outcome (on_token t st) (on_token-Checked t st c.0 h) (λ st' h'. scan-Checked ts st' c.1 h')
  where
    by_outcome :
        (m : Outcome)
        → CheckedOutcome m
        → ((st' : Stacks) → CheckedStacks st' → CheckedBuilt (scan ts st'))
        → CheckedBuilt (elim m [ go st' ↦ scan ts st' | bad ↦ rejected | abort ↦ aborted ])
    by_outcome (go st') k f = f st' k
    by_outcome bad k f = tt
    by_outcome abort k f = tt

opr_named-class : (s : Bytes) (op : OprType) → opr_named s ≡ some op → has_class op ≡ true
unfolding opr_named
opr_named-class s op h = ground arith

operator_or_value-Class :
    (s : Bytes) (m : Option OprType)
    → ((op : OprType) → m ≡ some op → has_class op ≡ true)
    → ClassToken (operator_or_value s m)
unfolding operator_or_value
operator_or_value-Class s none h = tt
operator_or_value-Class s (some op) h = h op refl

field_or_operator-Class : (s : Bytes) (m : Option Field) → ClassToken (field_or_operator s m)
unfolding field_or_operator
field_or_operator-Class s none = operator_or_value-Class s (opr_named s) (opr_named-class s)
field_or_operator-Class s (some f) = tt

get_token-Class : (s : Bytes) → ClassToken (get_token s)
unfolding get_token
get_token-Class s = field_or_operator-Class s (field_named s)

get_tokens-Class : (ws : List Bytes) → ClassTokens (get_tokens ws)
unfolding get_tokens
get_tokens-Class [] = tt
get_tokens-Class (w ∷ ws) = (get_token-Class w, get_tokens-Class ws)

-- A rule that `buildTree` accepts is a tree with an operator at its root, each of whose nodes has an
-- operator class and has passed `checkInvalidOpr`.
pub parse_rule-Checked :
    (s : Bytes) (t : Node) → parse_rule s ≡ built t → Checked t × (has_left t ≡ true)
unfolding parse_rule build_tree
parse_rule-Checked s t e = subst CheckedBuilt e (
    scan-Checked (get_tokens (words s)) (record { oprs = []; opnds = [] })
      (get_tokens-Class (words s)) (tt, tt))
