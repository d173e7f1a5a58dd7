-- ===== src/Consistent/Search.antt =====
-- The binary search of `mmc_consistent_find`, against the successor of a point on the circle.
use php_pecl_memcache_zynga.Prelude.{
  ℕ, zero, suc, ◌+◌, ◌-◌, ◌/◌, ◌≤◌, ◌<◌, ◌≡◌, refl, sym, ap, ◌∙◌, ◌≢◌, ◌⊎◌, inl, inr, true, false,
  ◌||◌, ◌&&◌, List, ◌∷◌, some, arith, ltb, leb, length, Bool-cases,
}
use php_pecl_memcache_zynga.Consistent.{
  Point, point_at, server_at, before, find_loop, consistent_find,
}
use php_pecl_memcache_zynga.Consistent.Sorted.{
  IsSorted, successor, sorted_mono, successor_at, successor_none,
}

module _ (ps : List Point) (p : ℕ) (s : IsSorted ps) where
  abbrev target : ℕ
  target = successor ps p (server_at ps 0)

  -- All points before `lo` are below `p`; the point at `hi` is not, or nothing has been cut off.
  record Between (lo hi : ℕ) : Type 0 where
    ordered : lo ≤ hi
    inside : hi < length ps
    passed : (lo ≡ 0) ⊎ (point_at ps (lo - 1) < p)
    bound : (lo ≡ 0) × (hi + 1 ≡ length ps) ⊎ (p ≤ point_at ps hi)

  below : (i j : ℕ) → i < length ps → point_at ps i < p → j ≤ i → point_at ps j < p
  below i j l h k = omega (arith, sorted_mono ps j i s k l)

  before_lt :
      (i : ℕ)
      → i < length ps
      → (i ≡ 0) ⊎ (point_at ps (i - 1) < p)
      → (j : ℕ) → j < i
      → point_at ps j < p
  before_lt i l (inl z) j k = absurd (omega arith)
  before_lt i l (inr h) j k = below (i - 1) j (omega arith) h (omega arith)

  -- The first test: `lo` is the successor, or `p` is above all points and wraps round to the first.
  outside :
      (lo hi : ℕ)
      → Between lo hi
      → (p ≤ point_at ps lo) ⊎ (point_at ps hi < p)
      → server_at ps lo ≡ target
  outside lo hi b (inl h) =
      sym (
        successor_at ps p (server_at ps 0) lo (omega arith) h (before_lt lo (omega arith) b.passed))
  outside lo hi b (inr h) = elim b.bound [
    | inl (z, e) ↦
        ap (server_at ps) z
        ∙ sym
            (successor_none ps p (server_at ps 0) (λ j k. below hi j (omega arith) h (omega arith)))
    | inr k ↦ absurd (omega arith)
  ]

  found :
      (mid : ℕ)
      → mid < length ps
      → (leb p (point_at ps mid) && ltb (before ps p mid) p) ≡ true
      → server_at ps mid ≡ target
  unfolding before
  found mid l h =
      sym (successor_at ps p (server_at ps 0) mid l (ground arith) (before_lt mid l (ground arith)))

  go_up :
      (lo hi mid : ℕ)
      → Between lo hi
      → lo ≤ mid
      → mid ≤ hi
      → p ≤ point_at ps hi
      → point_at ps mid < p
      → Between (mid + 1) hi
  go_up lo hi mid b k l ph h = record {
    ordered = ground arith;
    inside = b.inside;
    passed = let e : mid + 1 - 1 ≡ mid = omega arith in rw e (inr h);
    bound = inr ph;
  }

  go_down :
      (lo hi mid : ℕ)
      → Between lo hi
      → lo ≤ mid
      → mid ≤ hi
      → point_at ps lo < p
      → p ≤ point_at ps mid
      → (leb p (point_at ps mid) && ltb (before ps p mid) p) ≡ false
      → Between lo (mid - 1)
  unfolding before
  go_down lo hi mid b k l pl h m = record {
    ordered = ground arith;
    inside = omega arith;
    passed = b.passed;
    bound = inr (ground arith);
  }

  apart : (lo mid : ℕ) → point_at ps lo < p → p ≤ point_at ps mid → lo ≢ mid
  apart lo mid h k e = omega (arith, ap (point_at ps) e)

  -- With more rounds than points between the ends the loop ends at the successor.
  find_loop_lem :
      (fuel lo hi : ℕ) → Between lo hi → hi < lo + fuel → find_loop ps p fuel lo hi ≡ some target
  unfolding find_loop
  find_loop_lem zero lo hi b f = absurd (omega arith)
  find_loop_lem (suc fuel) lo hi b f =
      elim (Bool-cases (leb p (point_at ps lo) || ltb (point_at ps hi) p)) [
        | inl e ↦ rw e (ap some (outside lo hi b (ground arith)))
        | inr e ↦ elim (Bool-cases (leb p (point_at ps mid) && ltb (before ps p mid) p)) [
          | inl m ↦ rw (e, m) (ap some (found mid (omega arith) m))
          | inr m ↦ elim (Bool-cases (ltb (point_at ps mid) p)) [
            | inl u ↦
                rw (e, m, u)
                  (find_loop_lem fuel (mid + 1) hi
                    (go_up lo hi mid b (omega arith) (omega arith) (ground arith) (ground arith))
                    (omega arith))
            | inr u ↦
                rw (e, m, u)
                  (find_loop_lem fuel lo (mid - 1)
                    (go_down lo hi mid b (omega arith) (omega arith) (ground arith) (ground arith)
                      m)
                    (omega (arith, apart lo mid (ground arith) (ground arith))))
          ]
        ]
      ]
    where
      mid : ℕ
      mid = lo + (hi - lo) / 2

-- On points in ascending order `mmc_consistent_find` ends, and returns the server of the first point
-- that is not below the given one, or of the first point of all where every point is below it.
pub consistent_find_lem :
    (q : Point) (qs : List Point) (p : ℕ)
    → IsSorted (q ∷ qs)
    → consistent_find (q ∷ qs) p ≡ some (successor (q ∷ qs) p q.server)
unfolding consistent_find
consistent_find_lem q qs p s =
    find_loop_lem (q ∷ qs) p s (length (q ∷ qs)) 0 (length qs)
      (record {
        ordered = omega arith;
        inside = omega arith;
        passed = inl refl;
        bound = inl (refl, omega arith);
      })
      (omega arith)
