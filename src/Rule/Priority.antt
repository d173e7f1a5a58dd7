-- ===== src/Rule/Priority.antt =====
-- How `buildTree` groups rules without brackets.
use php_pecl_memcache_zynga.Prelude.{
  ◌≡◌, refl, sym, ap, ◌∙◌, true, List, [], ◌∷◌, ◌++◌, append-nil, arith, leb, if◌then◌else◌,
}
use php_pecl_memcache_zynga.Prelude.Bytes.{Bytes}
use php_pecl_memcache_zynga.Rule.{
  OprType, str_type, priority, Field, Token, opnd, val, oprtr, Node, opnd_leaf, value_leaf, branch,
  has_left, valid, check_invalid_opr,
}
use php_pecl_memcache_zynga.Rule.Build.{
  Stacks, go, reduce, on_operator, on_token, built, only_tree, on_end, scan, build_tree,
  after_check,
}
use php_pecl_memcache_zynga.Rule.Brackets.{
  compare, show, tree, stacks, step, compare_valid, is_text, is_comparison, is_connective,
  check_branches,
}

-- A comparison read without brackets, where its operator is pushed.
scan-comparison :
    (f : Field) (op : OprType) (v : Bytes) (os : List OprType) (ns : List Node) (rest : List Token)
    → on_token (oprtr op) (stacks os (opnd_leaf f ∷ ns)) ≡ go (stacks (op ∷ os) (opnd_leaf f ∷ ns))
    → scan (show (compare f op v) ++ rest) (stacks os ns)
      ≡ scan rest (stacks (op ∷ os) (value_leaf v ∷ opnd_leaf f ∷ ns))
unfolding on_token
scan-comparison f op v os ns rest h = step (opnd f) _ _ refl ∙ step _ _ _ h ∙ step (val v) _ _ refl

abbrev pub IsComparison : Field → OprType → Type 0
IsComparison f op = (if str_type op then is_text f else is_comparison op) ≡ true

module _ (f : Field) (op : OprType) (v : Bytes) (w : IsComparison f op) where
  push_first : (ns : List Node) → on_token (oprtr op) (stacks [] ns) ≡ go (stacks (op ∷ []) ns)
  unfolding on_token on_operator
  push_first ns = ground arith

  push_above :
      (top : OprType) (os : List OprType) (ns : List Node)
      → leb (priority top) 1 ≡ true
      → on_token (oprtr op) (stacks (top ∷ os) ns) ≡ go (stacks (op ∷ top ∷ os) ns)
  unfolding on_token on_operator
  push_above top os ns h = ground arith

  -- A connective behind a comparison reduces the comparison, and nothing more.
  reduce_once :
      (next : OprType) (os : List OprType) (ns : List Node)
      → leb (priority next) 1 ≡ true
      → on_token (oprtr next) (stacks (op ∷ os) (value_leaf v ∷ opnd_leaf f ∷ ns))
        ≡ go (stacks (next ∷ os) (branch op (opnd_leaf f) (value_leaf v) ∷ ns))
  unfolding on_token on_operator reduce after_check
  reduce_once next os ns h = ground (arith, compare_valid f op v w)

-- Comparisons with connectives between them.
pub data Chain : Type 0 where
  last : Field → OprType → Bytes → Chain
  more : Field → OprType → Bytes → OprType → Chain → Chain

abbrev pub WellTypedChain : Chain → Type 0
WellTypedChain (last f op v) = IsComparison f op
WellTypedChain (more f op v next c) =
    IsComparison f op × (is_connective next ≡ true) × WellTypedChain c

abbrev pub show_chain : Chain → List Token
show_chain (last f op v) = show (compare f op v)
show_chain (more f op v next c) = show (compare f op v) ++ (oprtr next ∷ show_chain c)

-- Every connective takes all that stands on its right.
abbrev pub nest : Chain → Node
nest (last f op v) = tree (compare f op v)
nest (more f op v next c) = branch next (tree (compare f op v)) (nest c)

has_left-nest : (c : Chain) → has_left (nest c) ≡ true
has_left-nest (last f op v) = refl
has_left-nest (more f op v next c) = refl

on_end_step :
    (op : OprType) (l r : Node) (os : List OprType) (ns : List Node)
    → check_invalid_opr op l r ≡ valid
    → on_end (op ∷ os) (r ∷ l ∷ ns) ≡ on_end os (branch op l r ∷ ns)
unfolding on_end
on_end_step op l r os ns h = rw (h, on_end)

abbrev Connectives : List OprType → Type 0
Connectives [] = Unit {0}
Connectives (top ∷ os) = leb (priority top) 1 ≡ true

push_comparison :
    (f : Field) (op : OprType) (v : Bytes) (os : List OprType) (ns : List Node)
    → IsComparison f op
    → Connectives os
    → on_token (oprtr op) (stacks os ns) ≡ go (stacks (op ∷ os) ns)
push_comparison f op v [] ns w k = push_first f op v w ns
push_comparison f op v (top ∷ os) ns w k = push_above f op v w top os ns k

scan_end : (st : Stacks) → scan [] st ≡ on_end st.oprs st.opnds
unfolding scan
scan_end st = refl

scan-chain :
    (c : Chain) (os : List OprType) (ns : List Node)
    → WellTypedChain c
    → Connectives os
    → scan (show_chain c) (stacks os ns) ≡ on_end os (nest c ∷ ns)
scan-chain (last f op v) os ns w k =
    ap (λ ts. scan ts (stacks os ns)) (sym (append-nil (show (compare f op v))))
    ∙ scan-comparison f op v os ns [] (push_comparison f op v os (opnd_leaf f ∷ ns) w k)
    ∙ scan_end _
    ∙ on_end_step op (opnd_leaf f) (value_leaf v) os ns (compare_valid f op v w)
scan-chain (more f op v next c) os ns w k =
    scan-comparison f op v os ns (oprtr next ∷ show_chain c)
      (push_comparison f op v os (opnd_leaf f ∷ ns) w.0 k)
    ∙ step _ _ _ (reduce_once f op v w.0 next os ns (low next w.1))
    ∙ scan-chain c (next ∷ os) (tree (compare f op v) ∷ ns) w.2 (low next w.1)
    ∙ on_end_step next (tree (compare f op v)) (nest c) os ns
        (check_branches next (tree (compare f op v)) (nest c) w.1 refl (has_left-nest c))
  where
    low : (next : OprType) → is_connective next ≡ true → leb (priority next) 1 ≡ true
    low next h = ground arith

-- A rule without brackets is accepted and grouped to the right whatever its connectives are: `a & b | c`
-- is read as `a & (b | c)`, although `&` stands above `|` in the order of priorities.
pub build_tree-chain : (c : Chain) → WellTypedChain c → build_tree (show_chain c) ≡ built (nest c)
unfolding build_tree on_end only_tree
build_tree-chain c w = scan-chain c [] [] w tt ∙ finish c
  where
    finish : (c : Chain) → on_end [] (nest c ∷ []) ≡ built (nest c)
    finish (last f op v) = refl
    finish (more f op v next c) = refl
