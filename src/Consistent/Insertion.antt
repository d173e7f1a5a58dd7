-- ===== src/Consistent/Insertion.antt =====
-- A `qsort` for concrete cases: insertion.
use mathlib.Core.List.{Perm}
use mathlib.Core.List.Perm
use php_pecl_memcache_zynga.Prelude.{
  ℕ, ◌≤◌, List, [], ◌∷◌, arith, leb, if◌then◌else◌, Bool-cases, inl, inr,
}
use php_pecl_memcache_zynga.Consistent.{Point}
use php_pecl_memcache_zynga.Consistent.Sorted.{Above, IsSorted, Sorter}

abbrev pub place : Point → List Point → List Point
place q [] = q ∷ []
place q (r ∷ rs) = if leb q.point r.point then q ∷ r ∷ rs else r ∷ place q rs

abbrev pub arrange : List Point → List Point
arrange [] = []
arrange (q ∷ qs) = place q (arrange qs)

Above-place :
    (p : ℕ) (q : Point) (rs : List Point) → p ≤ q.point → Above p rs → Above p (place q rs)
Above-place p q [] h a = (h, tt)
Above-place p q (r ∷ rs) h a = elim (Bool-cases (leb q.point r.point)) [
  | inl e ↦ rw e (h, a)
  | inr e ↦ rw e (a.0, Above-place p q rs h a.1)
]

Above-le : (p p' : ℕ) (rs : List Point) → p ≤ p' → Above p' rs → Above p rs
Above-le p p' [] h a = tt
Above-le p p' (r ∷ rs) h a = (omega arith, Above-le p p' rs h a.1)

place-IsSorted : (q : Point) (rs : List Point) → IsSorted rs → IsSorted (place q rs)
place-IsSorted q [] s = (tt, tt)
place-IsSorted q (r ∷ rs) s = elim (Bool-cases (leb q.point r.point)) [
  | inl e ↦
      let h : q.point ≤ r.point = ground arith in rw e ((h, Above-le q.point r.point rs h s.0), s)
  | inr e ↦ rw e (Above-place r.point q rs (ground arith) s.0, place-IsSorted q rs s.1)
]

place-perm : (q : Point) (rs : List Point) → Perm (place q rs) (q ∷ rs)
place-perm q [] = Perm.refl _
place-perm q (r ∷ rs) = elim (Bool-cases (leb q.point r.point)) [
  | inl e ↦ rw e (Perm.refl _)
  | inr e ↦ rw e (Perm.trans (Perm.cons r (place-perm q rs)) (Perm.swap q r rs))
]

pub arrange-IsSorted : (qs : List Point) → IsSorted (arrange qs)
arrange-IsSorted [] = tt
arrange-IsSorted (q ∷ qs) = place-IsSorted q (arrange qs) (arrange-IsSorted qs)

pub arrange-perm : (qs : List Point) → Perm (arrange qs) qs
arrange-perm [] = Perm.refl []
arrange-perm (q ∷ qs) = Perm.trans (place-perm q (arrange qs)) (Perm.cons q (arrange-perm qs))

abbrev pub insertion : Sorter
insertion = record { sort = arrange; sorts = arrange-IsSorted; permutes = arrange-perm }
