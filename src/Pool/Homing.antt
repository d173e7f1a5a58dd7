-- ===== src/Pool/Homing.antt =====
-- Lookups that always lead to the same server, and the failures that are left of it.
use php_pecl_memcache_zynga.Prelude.{
  ℕ, zero, suc, ◌≤◌, ◌≡◌, refl, sym, ap, ◌∙◌, Bool, true, false, ◌&&◌, ◌||◌, Option, none, some,
  arith,
}
use mathlib.Core.Path.{subst}
use php_pecl_memcache_zynga.Prelude.Int.{ℤ}
use php_pecl_memcache_zynga.Prelude.Bytes.{Bytes}
use php_pecl_memcache_zynga.Net.{
  Status, failed_status, disconnected, unknown, connected, Env, World, update, servers-update_self,
}
use php_pecl_memcache_zynga.Server.{Run, ret, crash, ◌>>=◌}
use php_pecl_memcache_zynga.Server.Live.{HasStream, LiveStatus, AllLive}
use php_pecl_memcache_zynga.Server.Failure.{Ends, Ends->>=, Kept, life}
use php_pecl_memcache_zynga.Server.Steps.{weight, Fit, FitAt, OpenStatus, Kept-FitAt, failure-FitAt}
use php_pecl_memcache_zynga.Pool.{
  Strategy, Pool, get_options, got_from_proxy, note_options, use_algo, ask_options, is_failed,
  is_null, with_found, check_found, pool_find,
}
use php_pecl_memcache_zynga.Pool.Ready.{no_proxy_test}
use php_pecl_memcache_zynga.Pool.Options.{Ready, ReadyAt, Lawful, Sendable, get_options-Kept}

module _ (env : Env) where
  -- The server `m` behind a lookup with at most `k` failures left: it has failed, or it is open.
  pub data HomedAt (k m : ℕ) (w : World) : Type 0 where
    found_failed : (w.servers m).status ≡ failed_status → HomedAt k m w
    found_open : FitAt env k m w → OpenStatus env (w.servers m).status → HomedAt k m w

  -- Behind the exchange of options one failure may be spent.
  pub data LeftAt (k m : ℕ) (w : World) : Type 0 where
    left_failed : (w.servers m).status ≡ failed_status → LeftAt k m w
    left_open : FitAt env k m w → OpenStatus env (w.servers m).status → LeftAt k m w
    left_less : (j : ℕ) → k ≡ suc j → FitAt env j m w → LeftAt k m w

  -- No server, or `m`.
  abbrev pub Homed : ℕ → ℕ → Option ℕ → World → Type 0
  Homed k m none w = Unit {0}
  Homed k m (some i) w = (i ≡ m) × HomedAt k m w

  abbrev pub Left : ℕ → ℕ → Option ℕ → World → Type 0
  Left k m none w = Unit {0}
  Left k m (some i) w = (i ≡ m) × LeftAt k m w

-- The lookup of the key leads to the server `m`, from the states in `Home`.
pub record Homing {S : Type 0} (env : Env) (strategy : Strategy S) (Valid Home : S → Type 0)
    (key : Bytes) (m : ℕ) : Type 0 where
  pub stays_home : (s : S) (w : World) → Home s → Home (strategy.find_server s key false w).0
  pub homes :
      (s : S) (k : ℕ) (w : World)
      → Valid s
      → Home s
      → AllLive w
      → FitAt env k m w
      → Ends (λ r w'. Homed env k m r w') (strategy.find_server s key false w).1

-- An open server has a failure left.
positive_bound : (k n : ℕ) → suc n ≤ k → (j : ℕ) × (k ≡ suc j)
positive_bound zero n h = absurd (omega arith)
positive_bound (suc j) n h = (j, refl)

pub some_weight :
    (env : Env) (k : ℕ) (s : Status) → OpenStatus env s → weight s ≤ k → (j : ℕ) × (k ≡ suc j)
unfolding weight
some_weight env k connected o h = positive_bound k 0 h
some_weight env k unknown o h = positive_bound k 2 h
some_weight env k disconnected o h = elim o [ ]
some_weight env k failed_status o h = elim o [ ]

module _ (env : Env) where
  use_algo-life :
      (checked : Bool) (m : ℕ) (w : World)
      → life ((use_algo checked m w).servers m) ≡ life (w.servers m)
  unfolding use_algo
  use_algo-life checked m w = ap life (servers-update_self m _ w)

  -- The state is what counts.
  Left-same :
      (k m : ℕ) (w w' : World)
      → life (w'.servers m) ≡ life (w.servers m)
      → LeftAt env k m w
      → LeftAt env k m w'
  Left-same k m w w' e (left_failed q) = left_failed (ap (λ (t : Status × (ℕ × ℤ)). t.0) e ∙ q)
  Left-same k m w w' e (left_open f o) =
      left_open (subst (λ (t : Status × (ℕ × ℤ)). Fit env k t) (sym e) f)
        (subst (λ (t : Status × (ℕ × ℤ)). OpenStatus env t.0) (sym e) o)
  Left-same k m w w' e (left_less j q f) =
      left_less j q (subst (λ (t : Status × (ℕ × ℤ)). Fit env j t) (sym e) f)

  note-Left :
      (k m : ℕ) (ok : Bool) (w : World)
      → (w.servers m).proxy ≡ none
      → FitAt env k m w
      → OpenStatus env (w.servers m).status
      → LeftAt env k m (note_options env false m ok w)
  unfolding note_options got_from_proxy
  note-Left k m true w p f o =
      Left-same k m w (update m (record (w.servers m) { got_options = true }) w)
        (ap life (servers-update_self m (record (w.servers m) { got_options = true }) w))
        (left_open f o)
  note-Left k m false w p f o =
      let (j, e) = some_weight env k (w.servers m).status o f.light in
      left_less j e (failure-FitAt env j m w p o (subst (λ (n : ℕ). FitAt env n m w) e f))

  module _ {S : Type 0} (algo : Bytes) (Home : S → Type 0) (k m : ℕ) where
    -- What `mmc_pool_find` leaves.
    abbrev pub HomeLeft : Pool S × Option ℕ → World → Type 0
    HomeLeft r w' = Home r.0.hash_state × Left env k m r.1 w'

    ask-Left :
        (pool : Pool S) (b : Bool) (w : World)
        → pool.proxy_enabled ≡ false
        → Home pool.hash_state
        → Sendable m w
        → FitAt env k m w
        → OpenStatus env (w.servers m).status
        → Ends HomeLeft (ask_options env algo pool m b w)
    unfolding ask_options
    ask-Left pool false w p h s f o = (
      h,
      (
        refl,
        Left-same k m w (use_algo pool.enable_checksum m w) (use_algo-life pool.enable_checksum m w)
            (left_open f o),
      ),
    )
    ask-Left pool true w p h s f o =
        Ends->>= (λ ok. Kept m w) HomeLeft (get_options env algo pool.enable_checksum m w)
          (λ ok w'.
            ret (pool, some m)
              (use_algo pool.enable_checksum m (note_options env pool.proxy_enabled m ok w')))
          (λ ok w' t. (
            h,
            (
              refl,
              Left-same k m (note_options env pool.proxy_enabled m ok w') _
                  (use_algo-life pool.enable_checksum m
                    (note_options env pool.proxy_enabled m ok w'))
                  (subst (λ (b : Bool). LeftAt env k m (note_options env b m ok w')) (sym p)
                    (note-Left k m ok w' (t.same_proxy ∙ s.no_proxy) (Kept-FitAt env k m w w' t f)
                      (subst (λ (t : Status × (ℕ × ℤ)). OpenStatus env t.0) (sym t.same_life) o))),
            ),
          ))
          (get_options-Kept env algo pool.enable_checksum m w s)

    open_stream : (s : Status) (st : Option ℕ) → LiveStatus s st → OpenStatus env s → HasStream st
    open_stream connected st l o = l
    open_stream unknown st l o = l
    open_stream disconnected st l o = elim o [ ]
    open_stream failed_status st l o = elim o [ ]

    open_unfailed : (s : Status) → OpenStatus env s → is_failed s ≡ false
    open_unfailed connected o = refl
    open_unfailed unknown o = refl
    open_unfailed disconnected o = elim o [ ]
    open_unfailed failed_status o = elim o [ ]

    check-Left :
        (pool : Pool S) (r : Option ℕ) (w : World)
        → pool.proxy_enabled ≡ false
        → Home pool.hash_state
        → AllLive w
        → ReadyAt r w
        → Homed env k m r w
        → Ends HomeLeft (check_found env algo pool r w)
    unfolding check_found with_found
    check-Left pool none w p h l r q = (h, tt)
    check-Left pool (some i) w p h l r (q, d) =
        subst (λ (n : ℕ). Ends HomeLeft (check_found env algo pool (some n) w)) (sym q)
          (at_home d (subst (λ (n : ℕ). Ready n w) q r))
      where
        test : Bool → Bool
        test b = is_failed (w.servers m).status || (b && is_null (w.servers m).proxy)

        tested : test pool.proxy_enabled ≡ is_failed (w.servers m).status
        tested =
            ap test p ∙ no_proxy_test (is_failed (w.servers m).status) (is_null (w.servers m).proxy)

        at_home :
            HomedAt env k m w
            → Ready m w
            → Ends HomeLeft (with_found env algo pool (test pool.proxy_enabled) m w)
        at_home (found_failed e) r =
            subst (λ (b : Bool). Ends HomeLeft (with_found env algo pool b m w))
              (sym (tested ∙ ap is_failed e)) (h, (refl, left_failed e))
        at_home (found_open f o) r =
            subst (λ (b : Bool). Ends HomeLeft (with_found env algo pool b m w))
              (sym (tested ∙ open_unfailed (w.servers m).status o))
              (ask-Left pool _ w p h
                (record {
                  live = l;
                  no_proxy = r.no_proxy;
                  has_stream = open_stream (w.servers m).status (w.servers m).stream (l.at m) o;
                })
                f o)

pub both-Ends :
    {A : Type 0} (P Q : A → World → Type 0) (r : Run A)
    → Ends P r
    → Ends Q r
    → Ends (λ a w. P a w × Q a w) r
both-Ends P Q (ret a w) p q = (p, q)
both-Ends P Q crash p q = elim p [ ]

module _ {S : Type 0} (env : Env) (algo : Bytes) where
  -- `mmc_pool_find` of a key that leads to the server `m`.
  pub pool_find-Left :
      (strategy : Strategy S) (Valid Home : S → Type 0) (pool : Pool S) (key : Bytes) (k m : ℕ)
      (w : World)
      → Lawful strategy Valid
      → Homing env strategy Valid Home key m
      → Valid pool.hash_state
      → Home pool.hash_state
      → pool.proxy_enabled ≡ false
      → AllLive w
      → FitAt env k m w
      → Ends (HomeLeft env algo Home k m) (pool_find env algo strategy pool key w)
  unfolding pool_find
  pool_find-Left strategy Valid Home pool key k m w law homing v h p l f =
      subst
        (λ (b : Bool).
          let found : S × Run (Option ℕ) = strategy.find_server pool.hash_state key b w in
          Ends (HomeLeft env algo Home k m)
            (found.1 >>= check_found env algo (record pool { hash_state = found.0 })))
        (sym p)
        (Ends->>= (λ r w'. (AllLive w' × ReadyAt r w') × Homed env k m r w')
          (HomeLeft env algo Home k m) found.1 (check_found env algo pool')
          (λ o w' q.
            check-Left env algo Home k m pool' o w' p (homing.stays_home pool.hash_state w h) q.0.0
              q.0.1 q.1)
          (both-Ends (λ r w'. AllLive w' × ReadyAt r w') (Homed env k m) found.1
            (law.finds pool.hash_state key w v l) (homing.homes pool.hash_state k w v h l f)))
    where
      found : S × Run (Option ℕ)
      found = strategy.find_server pool.hash_state key false w

      pool' : Pool S
      pool' = record pool { hash_state = found.0 }
