-- ===== src/Rule/Brackets.antt =====
-- Rules written with all their brackets, and their trees.
use php_pecl_memcache_zynga.Prelude.{
  ◌≡◌, refl, ◌∙◌, ap, Bool, true, false, List, [], ◌∷◌, ◌++◌, append-nil, append_assoc, sym, arith,
  leb, if◌then◌else◌,
}
use php_pecl_memcache_zynga.Prelude.Bytes.{Bytes}
use php_pecl_memcache_zynga.Rule.{
  OprType, or, and, eq, gt, lt, brcs_str, brcs_stp, str_type, priority, Field, field_type, string,
  Token, opnd, val, oprtr, Node, opnd_leaf, value_leaf, branch, has_left, valid, check_invalid_opr,
  check_string_opr, check_other_opr,
}
use php_pecl_memcache_zynga.Rule.Build.{
  Stacks, go, on_operator, on_close, on_token, built, only_tree, on_end, scan, build_tree, is_open,
}

-- A comparison of a field with a value, and the two connectives.
pub data Rule : Type 0 where
  compare : Field → OprType → Bytes → Rule
  both either : Rule → Rule → Rule

abbrev pub is_comparison : OprType → Bool
is_comparison eq = true
is_comparison gt = true
is_comparison lt = true
is_comparison _ = false

abbrev pub is_text : Field → Bool
is_text f = elim (field_type f) [ string ↦ true | _ ↦ false ]

-- Text operators stand behind text fields, `=`, `>` and `<` behind any.
abbrev pub WellTyped : Rule → Type 0
WellTyped (compare f op v) = (if str_type op then is_text f else is_comparison op) ≡ true
WellTyped (both a b) = WellTyped a × WellTyped b
WellTyped (either a b) = WellTyped a × WellTyped b

abbrev pub bracket : List Token → List Token
bracket ts = oprtr brcs_str ∷ (ts ++ (oprtr brcs_stp ∷ []))

-- The tokens of the rule without the outermost brackets.
abbrev pub show : Rule → List Token
show (compare f op v) = opnd f ∷ oprtr op ∷ val v ∷ []
show (both a b) = bracket (show a) ++ (oprtr and ∷ bracket (show b))
show (either a b) = bracket (show a) ++ (oprtr or ∷ bracket (show b))

abbrev pub tree : Rule → Node
tree (compare f op v) = branch op (opnd_leaf f) (value_leaf v)
tree (both a b) = branch and (tree a) (tree b)
tree (either a b) = branch or (tree a) (tree b)

abbrev pub stacks : List OprType → List Node → Stacks
stacks os ns = record { oprs = os; opnds = ns }

pub compare_valid :
    (f : Field) (op : OprType) (v : Bytes)
    → (if str_type op then is_text f else is_comparison op) ≡ true
    → check_invalid_opr op (opnd_leaf f) (value_leaf v) ≡ valid
unfolding check_invalid_opr check_string_opr check_other_opr
compare_valid f op v h = ground arith

abbrev pub Opens : List OprType → Type 0
Opens [] = Unit {0}
Opens (top ∷ os) = leb (priority top) 9 ≡ true

abbrev pub is_connective : OprType → Bool
is_connective and = true
is_connective or = true
is_connective _ = false

pub step :
    (t : Token) (ts : List Token) (st : Stacks) {st' : Stacks}
    → on_token t st ≡ go st'
    → scan (t ∷ ts) st ≡ scan ts st'
unfolding scan
step t ts st e = rw (e, scan)

on_token-open :
    (os : List OprType) (ns : List Node)
    → Opens os
    → on_token (oprtr brcs_str) (stacks os ns) ≡ go (stacks (brcs_str ∷ os) ns)
unfolding on_token on_operator
on_token-open [] ns o = refl
on_token-open (top ∷ os) ns o = rw o

on_token-inside :
    (op : OprType) (os : List OprType) (ns : List Node)
    → leb (priority op) 9 ≡ true
    → on_token (oprtr op) (stacks (brcs_str ∷ os) ns) ≡ go (stacks (op ∷ brcs_str ∷ os) ns)
unfolding on_token on_operator
on_token-inside op os ns h = ground arith

on_close-open :
    (os : List OprType) (ns : List Node) → on_close (brcs_str ∷ os) ns ≡ go (stacks os ns)
unfolding on_close
on_close-open os [] = refl
on_close-open os (n ∷ []) = refl
on_close-open os (r ∷ l ∷ ns) = refl

on_token-close :
    (op : OprType) (l r : Node) (os : List OprType) (ns : List Node)
    → is_open op ≡ false
    → check_invalid_opr op l r ≡ valid
    → on_token (oprtr brcs_stp) (stacks (op ∷ brcs_str ∷ os) (r ∷ l ∷ ns))
      ≡ go (stacks os (branch op l r ∷ ns))
unfolding on_token on_close
on_token-close op l r os ns h c = rw (h, c) (on_close-open os (branch op l r ∷ ns))

regroup :
    (xs ys rest : List Token) (t : Token)
    → bracket (xs ++ (t ∷ ys)) ++ rest
      ≡ oprtr brcs_str ∷ (xs ++ (t ∷ (ys ++ (oprtr brcs_stp ∷ rest))))
regroup xs ys rest t = simp append_assoc

pub check_branches :
    (op : OprType) (l r : Node)
    → is_connective op ≡ true
    → has_left l ≡ true
    → has_left r ≡ true
    → check_invalid_opr op l r ≡ valid
unfolding check_invalid_opr check_other_opr
check_branches op l r h hl hr = ground arith

pub has_left-tree : (e : Rule) → has_left (tree e) ≡ true
has_left-tree (compare f op v) = refl
has_left-tree (both a b) = refl
has_left-tree (either a b) = refl

scan-compare :
    (f : Field) (op : OprType) (v : Bytes) (os : List OprType) (ns : List Node) (rest : List Token)
    → WellTyped (compare f op v)
    → Opens os
    → scan (bracket (show (compare f op v)) ++ rest) (stacks os ns)
      ≡ scan rest (stacks os (tree (compare f op v) ∷ ns))
unfolding on_token
scan-compare f op v os ns rest w o =
    let (low, shut) = comparison_lem op f w in
    step _ _ _ (on_token-open os ns o)
    ∙ step (opnd f) _ _ refl
    ∙ step _ _ _ (on_token-inside op os (opnd_leaf f ∷ ns) low)
    ∙ step (val v) _ _ refl
    ∙ step _ _ _
        (on_token-close op (opnd_leaf f) (value_leaf v) os ns shut (compare_valid f op v w))
  where
    comparison_lem :
        (op : OprType) (f : Field)
        → (if str_type op then is_text f else is_comparison op) ≡ true
        → (leb (priority op) 9 ≡ true) × (is_open op ≡ false)
    comparison_lem op f h = ground arith

-- The trees of two bracketed rules and a connective between them.
abbrev pub Leaves : Rule → Type 0
Leaves e =
    (os : List OprType) (ns : List Node) (rest : List Token)
    → Opens os
    → scan (bracket (show e) ++ rest) (stacks os ns) ≡ scan rest (stacks os (tree e ∷ ns))

scan-connective :
    (op : OprType) (a b : Rule)
    → is_connective op ≡ true
    → Leaves a
    → Leaves b
    → (os : List OprType) (ns : List Node) (rest : List Token) → Opens os
    → scan (bracket (bracket (show a) ++ (oprtr op ∷ bracket (show b))) ++ rest) (stacks os ns)
      ≡ scan rest (stacks os (branch op (tree a) (tree b) ∷ ns))
scan-connective op a b c la lb os ns rest o =
    ap (λ ts. scan ts (stacks os ns))
      (regroup (bracket (show a)) (bracket (show b)) rest (oprtr op))
    ∙ step _ _ _ (on_token-open os ns o)
    ∙ la (brcs_str ∷ os) ns _ refl
    ∙ step _ _ _ (on_token-inside op os (tree a ∷ ns) low)
    ∙ lb (op ∷ brcs_str ∷ os) (tree a ∷ ns) _ low
    ∙ step _ _ _ (
        on_token-close op (tree a) (tree b) os ns (ground arith)
          (check_branches op (tree a) (tree b) c (has_left-tree a) (has_left-tree b)))
  where
    low : leb (priority op) 9 ≡ true
    low = ground arith

pub scan-bracket : (e : Rule) → WellTyped e → Leaves e
scan-bracket (compare f op v) w = λ os ns rest o. scan-compare f op v os ns rest w o
scan-bracket (both a b) w = scan-connective and a b refl (scan-bracket a w.0) (scan-bracket b w.1)
scan-bracket (either a b) w = scan-connective or a b refl (scan-bracket a w.0) (scan-bracket b w.1)

-- A rule in brackets, each comparison and each connective in its own, is accepted, and its tree is the
-- rule's.
pub build_tree-show : (e : Rule) → WellTyped e → build_tree (bracket (show e)) ≡ built (tree e)
unfolding build_tree on_end only_tree
build_tree-show e w =
    ap (λ ts. scan ts (stacks [] [])) (sym (append-nil (bracket (show e))))
    ∙ scan-bracket e w [] [] [] tt
    ∙ finish e
  where
    finish : (e : Rule) → scan [] (stacks [] (tree e ∷ [])) ≡ built (tree e)
    finish (compare f op v) = refl
    finish (both a b) = refl
    finish (either a b) = refl
