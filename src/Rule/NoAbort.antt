-- ===== src/Rule/NoAbort.antt =====
-- Rules without a text operator.
use mathlib.Core.Path.{subst}
use php_pecl_memcache_zynga.Prelude.{
  ◌≡◌, ◌≢◌, refl, Bool, true, false, List, [], ◌∷◌, arith, leb, ◌||◌, if◌then◌else◌,
}
use php_pecl_memcache_zynga.Rule.{
  OprType, brcs_str, str_type, priority, Token, opnd, val, oprtr, Node, branch, Verdict, valid,
  invalid, aborts, check_invalid_opr, check_other_opr,
}
use php_pecl_memcache_zynga.Rule.Build.{
  Stacks, Outcome, go, bad, abort, reduce, on_operator, on_close, on_token, Built, rejected,
  aborted, only_tree, on_end, scan, build_tree, is_open, after_check, push_opr, ◌>>=◌,
}

abbrev Plain : List OprType → Type 0
Plain [] = Unit {0}
Plain (op ∷ os) = (str_type op ≡ false) × Plain os

abbrev PlainOutcome : Outcome → Type 0
PlainOutcome (go st) = Plain st.oprs
PlainOutcome bad = Unit {0}
PlainOutcome abort = ⊥

abbrev PlainBuilt : Built → Type 0
PlainBuilt aborted = ⊥
PlainBuilt _ = Unit {0}

abbrev PlainToken : Token → Type 0
PlainToken (oprtr op) = str_type op ≡ false
PlainToken _ = Unit {0}

-- No token is a text operator.
abbrev pub PlainTokens : List Token → Type 0
PlainTokens [] = Unit {0}
PlainTokens (t ∷ ts) = PlainToken t × PlainTokens ts

check_plain : (op : OprType) (l r : Node) → str_type op ≡ false → check_invalid_opr op l r ≢ aborts
unfolding check_invalid_opr check_other_opr
check_plain op l r h = ground arith

-- What waits on the verdict of an operator that reads no text.
by_verdict {ℓ κ} :
    {A : Type ℓ} (P : A → Type κ) (v : Verdict) (x y z : A)
    → v ≢ aborts
    → P x
    → P y
    → P (elim v [ valid ↦ x | invalid ↦ y | aborts ↦ z ])
by_verdict P valid x y z n p q = p
by_verdict P invalid x y z n p q = q
by_verdict P aborts x y z n p q = absurd (n refl)

by_test {ℓ κ} :
    {A : Type ℓ} (P : A → Type κ) (b : Bool) {x y : A} → P x → P y → P (if b then x else y)
by_test P true p q = p
by_test P false p q = q

after_check_lem :
    (v : Verdict) (st : Stacks) → v ≢ aborts → Plain st.oprs → PlainOutcome (after_check v st)
unfolding after_check
after_check_lem valid st n p = p
after_check_lem invalid st n p = tt
after_check_lem aborts st n p = absurd (n refl)

reduce-Plain :
    (op : OprType) (os : List OprType) (ns : List Node)
    → str_type op ≡ false
    → Plain os
    → PlainOutcome (reduce op os ns)
unfolding reduce
reduce-Plain op os [] h p = tt
reduce-Plain op os (r ∷ []) h p = tt
reduce-Plain op os (r ∷ l ∷ ns) h p = after_check_lem _ _ (check_plain op l r h) p

push_opr-Plain :
    (op : OprType) (m : Outcome)
    → str_type op ≡ false
    → PlainOutcome m
    → PlainOutcome (m >>= push_opr op)
push_opr-Plain op (go st) h p = (h, p)
push_opr-Plain op bad h p = tt
push_opr-Plain op abort h p = p

on_operator-Plain :
    (op : OprType) (os : List OprType) (ns : List Node)
    → str_type op ≡ false
    → Plain os
    → PlainOutcome (on_operator op os ns)
unfolding on_operator
on_operator-Plain op [] ns h p = (h, tt)
on_operator-Plain op (top ∷ os) ns h p =
    by_test PlainOutcome (leb (priority top) (priority op) || is_open top) (h, p)
      (push_opr-Plain op (reduce top os ns) h (reduce-Plain top os ns p.0 p.1))

on_close-Plain : (os : List OprType) (ns : List Node) → Plain os → PlainOutcome (on_close os ns)
unfolding on_close
on_close-Plain [] ns p = tt
on_close-Plain (op ∷ os) [] p = by_test PlainOutcome (is_open op) p.1 tt
on_close-Plain (op ∷ os) (r ∷ []) p = by_test PlainOutcome (is_open op) p.1 tt
on_close-Plain (op ∷ os) (r ∷ l ∷ ns) p = by_test PlainOutcome (is_open op) p.1 (
    by_verdict PlainOutcome (check_invalid_opr op l r) (on_close os (branch op l r ∷ ns)) bad abort
      (check_plain op l r p.0) (on_close-Plain os (branch op l r ∷ ns) p.1) tt)

on_token-Plain :
    (t : Token) (st : Stacks) → PlainToken t → Plain st.oprs → PlainOutcome (on_token t st)
unfolding on_token
on_token-Plain (opnd f) st h p = p
on_token-Plain (val s) st h p = p
on_token-Plain (oprtr op) st h p =
    by_test PlainOutcome (leb (priority op) (priority brcs_str))
      (on_operator-Plain op st.oprs st.opnds h p) (on_close-Plain st.oprs st.opnds p)

only_tree-Plain : (ns : List Node) → PlainBuilt (only_tree ns)
unfolding only_tree
only_tree-Plain (branch op l r ∷ []) = tt
only_tree-Plain _ = tt

on_end-Plain : (os : List OprType) (ns : List Node) → Plain os → PlainBuilt (on_end os ns)
unfolding on_end
on_end-Plain [] ns p = only_tree-Plain ns
on_end-Plain (op ∷ os) [] p = tt
on_end-Plain (op ∷ os) (r ∷ []) p = tt
on_end-Plain (op ∷ os) (r ∷ l ∷ ns) p =
    by_verdict PlainBuilt (check_invalid_opr op l r) (on_end os (branch op l r ∷ ns)) rejected
      aborted (check_plain op l r p.0) (on_end-Plain os (branch op l r ∷ ns) p.1) tt

scan-Plain :
    (ts : List Token) (st : Stacks) → PlainTokens ts → Plain st.oprs → PlainBuilt (scan ts st)
unfolding scan
scan-Plain [] st h p = on_end-Plain st.oprs st.opnds p
scan-Plain (t ∷ ts) st h p =
    by_outcome (on_token t st) (on_token-Plain t st h.0 p) (λ st' q. scan-Plain ts st' h.1 q)
  where
    by_outcome :
        (m : Outcome)
        → PlainOutcome m
        → ((st' : Stacks) → Plain st'.oprs → PlainBuilt (scan ts st'))
        → PlainBuilt (elim m [ go st' ↦ scan ts st' | bad ↦ rejected | abort ↦ aborted ])
    by_outcome (go st') q f = f st' q
    by_outcome bad q f = tt
    by_outcome abort q f = absurd q

-- A rule without text operators is accepted or refused; it never fails an assertion.
pub build_tree_no_abort : (ts : List Token) → PlainTokens ts → build_tree ts ≢ aborted
unfolding build_tree
build_tree_no_abort ts h e = subst PlainBuilt e (scan-Plain ts _ h tt)
