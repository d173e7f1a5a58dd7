-- ===== src/Consistent/Sorted.antt =====
-- Points in ascending order, as `qsort` leaves them, and the successor of a point.
use mathlib.Core.List.{Perm}
use php_pecl_memcache_zynga.Prelude.{
  ℕ, zero, suc, ◌≤◌, ◌<◌, ◌≡◌, refl, List, [], ◌∷◌, arith, leb, if◌then◌else◌, length,
}
use php_pecl_memcache_zynga.Consistent.{Point, point_at, server_at}

abbrev pub Above : ℕ → List Point → Type 0
Above p [] = Unit {0}
Above p (q ∷ qs) = (p ≤ q.point) × Above p qs

abbrev pub IsSorted : List Point → Type 0
IsSorted [] = Unit {0}
IsSorted (q ∷ qs) = Above q.point qs × IsSorted qs

-- What the C library's `qsort` is relied on for, with `mmc_consistent_compare` as the order.
pub record Sorter : Type 0 where
  pub sort : List Point → List Point
  pub sorts : (ps : List Point) → IsSorted (sort ps)
  pub permutes : (ps : List Point) → Perm (sort ps) ps

-- The server of the first point that is not below `p`; `d` where all are.
unfoldable pub successor : List Point → ℕ → ℕ → ℕ
successor [] p d = d
successor (q ∷ qs) p d = if leb p q.point then q.server else successor qs p d

Above-at : (p : ℕ) (qs : List Point) (j : ℕ) → Above p qs → j < length qs → p ≤ point_at qs j
Above-at p [] j h l = absurd (omega arith)
Above-at p (q ∷ qs) zero h l = h.0
Above-at p (q ∷ qs) (suc j) h l = Above-at p qs j h.1 (omega arith)

-- In a sorted list the points grow with the index.
pub sorted_mono :
    (ps : List Point) (i j : ℕ)
    → IsSorted ps
    → i ≤ j
    → j < length ps
    → point_at ps i ≤ point_at ps j
sorted_mono [] i j s h l = absurd (omega arith)
sorted_mono (q ∷ qs) zero zero s h l = omega arith
sorted_mono (q ∷ qs) zero (suc j) s h l = Above-at q.point qs j s.0 (omega arith)
sorted_mono (q ∷ qs) (suc i) zero s h l = absurd (omega arith)
sorted_mono (q ∷ qs) (suc i) (suc j) s h l = sorted_mono qs i j s.1 (omega arith) (omega arith)

-- An index with all points below `p` before it, and a point that is not below `p`, is the successor.
pub successor_at :
    (ps : List Point) (p d i : ℕ)
    → i < length ps
    → p ≤ point_at ps i
    → ((j : ℕ) → j < i → point_at ps j < p)
    → successor ps p d ≡ server_at ps i
unfolding successor
successor_at [] p d i l h b = absurd (omega arith)
successor_at (q ∷ qs) p d zero l h b = ground arith
successor_at (q ∷ qs) p d (suc i) l h b =
    ground (arith, b 0, successor_at qs p d i (omega arith) h (λ j k. b (suc j) (omega arith)))

pub successor_none :
    (ps : List Point) (p d : ℕ)
    → ((j : ℕ) → j < length ps → point_at ps j < p)
    → successor ps p d ≡ d
unfolding successor
successor_none [] p d b = refl
successor_none (q ∷ qs) p d b =
    ground (arith, b 0, successor_none qs p d (λ j k. b (suc j) (omega arith)))
