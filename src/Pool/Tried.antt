-- ===== src/Pool/Tried.antt =====
-- The choices of both strategies without failover: the key's own server, tried once.
use php_pecl_memcache_zynga.Prelude.{
  ℕ, ◌%◌, ◌^◌, ◌+◌, ◌≡◌, refl, sym, ap, ◌∙◌, inl, inr, Bool, true, false, not, ◌&&◌, zero, suc,
  Option, none, some, ltb, if◌then◌else◌, get_or, length, Bool-cases,
}
use mathlib.Core.Path.{subst}
use php_pecl_memcache_zynga.Prelude.Bytes.{Bytes}
use php_pecl_memcache_zynga.Net.{Status, Env, World}
use php_pecl_memcache_zynga.Server.{Run, ret, ◌>>=◌}
use php_pecl_memcache_zynga.Server.Open.{mmc_open}
use php_pecl_memcache_zynga.Server.Live.{AllLive}
use php_pecl_memcache_zynga.Server.Failure.{Ends, Ends->>=, Ends-map}
use php_pecl_memcache_zynga.Server.Ready.{StatusAfter, Answered, mmc_open-Answered}
use php_pecl_memcache_zynga.Consistent.{no_point, State}
use php_pecl_memcache_zynga.Failover.{
  Settings, settle, set_proxy, only_server, settle_consistent, usable_or_null, with_proxy,
}
use php_pecl_memcache_zynga.Failover.Find.{
  StandardState, standard_find_server, consistent_choose, standard_choose, settle_standard,
}
use php_pecl_memcache_zynga.Server.Steps.{FitAt, OpenStatus, updated-FitAt, mmc_open-FitAt}
use php_pecl_memcache_zynga.Consistent.{consistent_buckets}
use php_pecl_memcache_zynga.Failover.{failover_loop, should_failover}
use php_pecl_memcache_zynga.Failover.Find.{bucket_of, mmc_hash, consistent_key, standard_key}
use php_pecl_memcache_zynga.Pool.Homing.{HomedAt, found_failed, found_open, Homed, both-Ends}
use php_pecl_memcache_zynga.Pool.Law.{settle-Answered, otherwise, not_false}
use php_pecl_memcache_zynga.Failover.Choice.{Ends-unless_empty}
use php_pecl_memcache_zynga.Prelude.{◌≢◌, []}

-- The server is opened, or it has failed, and at most `k` failures are left.
record Tried (env : Env) (k m : ℕ) (w : World) : Type 0 where
  opened : Bool
  answered : Answered m false opened w
  fit : FitAt env k m w

Tried-HomedAt : (env : Env) (k m : ℕ) (w : World) → Tried env k m w → HomedAt env k m w
Tried-HomedAt env k m w t = go t.opened t.answered.status_after
  where
    go : (b : Bool) → StatusAfter b false (w.servers m).status → HomedAt env k m w
    go false e = found_failed e
    go true (inl e) = found_open t.fit (subst (λ (s : Status). OpenStatus env s) (sym e) tt)
    go true (inr (e, u)) = found_open t.fit (subst (λ (s : Status). OpenStatus env s) (sym e) tt)

-- The server of a key in the list.
abbrev pub standard_home : (Bytes → ℕ) → StandardState → Bytes → ℕ
standard_home hashing s key =
    if ltb 1 s.num_servers
    then bucket_of s.buckets (length s.buckets) (mmc_hash hashing key)
    else get_or s.buckets 0 0

abbrev pub consistent_home : (Bytes → ℕ) → State → Bytes → ℕ
consistent_home hashing s key =
    if ltb 1 s.num_servers
    then bucket_of s.buckets consistent_buckets (hashing key)
    else (get_or s.points 0 no_point).server

if_true : (b : Bool) (x y : ℕ) → b ≡ true → (if b then x else y) ≡ x
if_true b x y e = rw e refl

if_false : (b : Bool) (x y : ℕ) → b ≡ false → (if b then x else y) ≡ y
if_false b x y e = rw e refl

when_true :
    {A : Type 0} (P : A → World → Type 0) (b : Bool) (x y : Run A)
    → b ≡ true
    → Ends P x
    → Ends P (if b then x else y)
when_true P true x y e h = h
when_true P false x y e h = elim (not_false (sym e)) [ ]

and_false : (b : Bool) → (b && false) ≡ false
and_false true = refl
and_false false = refl

module _ (env : Env) (cfg : Settings) (k : ℕ) where
  mmc_open-Tried :
      (m : ℕ) (w : World)
      → AllLive w
      → FitAt env k m w
      → Ends (λ b. Tried env k m) (mmc_open env cfg.connection_retry_count m false w)
  mmc_open-Tried m w l f =
      Ends-map (λ b w'. Answered m false b w' × FitAt env k m w') (λ b. Tried env k m)
        (mmc_open env cfg.connection_retry_count m false w)
        (λ b w' q. record { opened = b; answered = q.0; fit = q.1 })
        (both-Ends (λ b. Answered m false b) (λ b. FitAt env k m)
          (mmc_open env cfg.connection_retry_count m false w)
          (mmc_open-Answered env cfg.connection_retry_count m false w (inl refl) l)
          (mmc_open-FitAt env cfg.connection_retry_count m k w f))

  down-Tried :
      (m : ℕ) (w : World)
      → AllLive w
      → FitAt env k m w
      → Ends (λ down. Tried env k m) (should_failover env cfg none m w)
  unfolding should_failover
  down-Tried m w l f =
      Ends->>= (λ b. Tried env k m) (λ down. Tried env k m)
        (mmc_open env cfg.connection_retry_count m false w) (λ opened. ret (not opened))
        (λ b w' t. t) (mmc_open-Tried m w l f)

  only-Tried :
      (m : ℕ) (w : World)
      → AllLive w
      → FitAt env k m w
      → Ends (λ r w'. (r ≡ some m) × Tried env k m w') (only_server env cfg none m w)
  unfolding only_server
  only-Tried m w l f =
      Ends->>= (λ b. Tried env k m) (λ r w'. (r ≡ some m) × Tried env k m w')
        (mmc_open env cfg.connection_retry_count m false w) (λ opened. ret (some m))
        (λ b w' t. (refl, t)) (mmc_open-Tried m w l f)

  settle-Tried : (m : ℕ) (w : World) → Tried env k m w → Tried env k m (settle env cfg none m w)
  unfolding settle set_proxy
  settle-Tried m w t = record {
    opened = t.opened;
    answered = settle-Answered env cfg m t.opened w t.answered;
    fit = updated-FitAt env k m (record (w.servers m) { proxy = none }) w t.fit;
  }

  -- The lookup's way to its server.
  abbrev Reached : ℕ → ℕ → World → Type 0
  Reached m n w = (n ≡ m) × Tried env k m w

  module _ (next : ℕ → ℕ → ℕ) (server_of : ℕ → ℕ) (h : cfg.allow_failover ≡ false) where
    loop-Reached :
        (left i hash : ℕ) (w : World)
        → AllLive w
        → FitAt env k (server_of hash) w
        → Ends (Reached (server_of hash)) (failover_loop env cfg next server_of none left i hash w)
    unfolding failover_loop should_failover
    loop-Reached zero i hash w l f =
        Ends->>= (λ b. Tried env k (server_of hash)) (Reached (server_of hash))
          (should_failover env cfg none (server_of hash) w) (λ down. ret (server_of hash))
          (λ down w' t. (refl, t)) (down-Tried (server_of hash) w l f)
    loop-Reached (suc left) i hash w l f =
        Ends->>= (λ b. Tried env k (server_of hash)) (Reached (server_of hash))
          (should_failover env cfg none (server_of hash) w) _
          (λ down w' t.
            otherwise (Reached (server_of hash)) (down && cfg.allow_failover) _ _
              (ap (λ (b : Bool). down && b) h ∙ and_false down) (refl, t))
          (down-Tried (server_of hash) w l f)

  module _ (m : ℕ) where
    standard-Homed :
        (hashing : Bytes → ℕ) (n : ℕ) (w : World)
        → Reached m n w
        → Ends (Homed env k m) (settle_standard env cfg hashing none (some n) w)
    unfolding settle_standard
    standard-Homed hashing n w (e, t) =
        subst (λ (i : ℕ). Homed env k m (some i) (settle env cfg none i w)) (sym e)
          (refl, Tried-HomedAt env k m (settle env cfg none m w) (settle-Tried m w t))

    some_or_none :
        (b : Bool) (w : World) → HomedAt env k m w → Homed env k m (if b then some m else none) w
    some_or_none true w d = (refl, d)
    some_or_none false w d = tt

    consistent-Homed :
        (n : ℕ) (w : World)
        → Reached m n w
        → Ends (Homed env k m) (settle_consistent env cfg none (some n) w)
    unfolding settle_consistent usable_or_null
    consistent-Homed n w (e, t) =
        subst (λ (i : ℕ). Ends (Homed env k m) (usable_or_null env cfg i (settle env cfg none i w)))
          (sym e)
          (some_or_none _ (settle env cfg none m w)
            (Tried-HomedAt env k m (settle env cfg none m w) (settle-Tried m w t)))

    -- The rest of a lookup behind the only server of a pool.
    only-Homed :
        (finish : Option ℕ → World → Run (Option ℕ)) (n : ℕ) (w : World)
        → n ≡ m
        → AllLive w
        → FitAt env k m w
        → ((i : ℕ) (w' : World) → Reached m i w' → Ends (Homed env k m) (finish (some i) w'))
        → Ends (Homed env k m) (only_server env cfg none n w >>= finish)
    only-Homed finish n w e l f fin =
        subst (λ (i : ℕ). Ends (Homed env k m) (only_server env cfg none i w >>= finish)) (sym e)
          (Ends->>= (λ r w'. (r ≡ some m) × Tried env k m w') (Homed env k m)
            (only_server env cfg none m w) finish
            (λ r w' q.
              subst (λ (o : Option ℕ). Ends (Homed env k m) (finish o w')) (sym q.0)
                (fin m w' (refl, q.1)))
            (only-Tried m w l f))

    -- The rest of a lookup behind the loop.
    loop-Homed :
        (finish : Option ℕ → World → Run (Option ℕ)) (next : ℕ → ℕ → ℕ) (server_of : ℕ → ℕ)
        (hash : ℕ) (w : World)
        → cfg.allow_failover ≡ false
        → server_of hash ≡ m
        → AllLive w
        → FitAt env k m w
        → ((i : ℕ) (w' : World) → Reached m i w' → Ends (Homed env k m) (finish (some i) w'))
        → Ends (Homed env k m) (
            failover_loop env cfg next server_of none cfg.max_failover_attempts 0 hash w
            >>= (λ i. finish (some i)))
    loop-Homed finish next server_of hash w h e l f fin =
        Ends->>= (Reached (server_of hash)) (Homed env k m)
          (failover_loop env cfg next server_of none cfg.max_failover_attempts 0 hash w)
          (λ i. finish (some i)) (λ i w' q. fin i w' (subst (λ (n : ℕ). Reached n i w') e q))
          (loop-Reached next server_of h cfg.max_failover_attempts 0 hash w l
            (subst (λ (n : ℕ). FitAt env k n w) (sym e) f))

    pub standard_find-Homed :
        (hashing : Bytes → ℕ) (s : StandardState) (key : Bytes) (w : World)
        → cfg.allow_failover ≡ false
        → s.buckets ≢ []
        → standard_home hashing s key ≡ m
        → AllLive w
        → FitAt env k m w
        → Ends (Homed env k m) (standard_find_server env cfg hashing s key false w)
    unfolding standard_find_server with_proxy standard_choose
    standard_find-Homed hashing s key w h ne e l f =
        Ends-unless_empty (Homed env k m) s.buckets _ ne (elim (Bool-cases (ltb 1 s.num_servers)) [
          | inl many ↦ when_true (Homed env k m) (ltb 1 s.num_servers) _ _ many (
              loop-Homed (settle_standard env cfg hashing none)
                (λ i h. (h + mmc_hash hashing (standard_key key i)) % 2 ^ 32)
                (bucket_of s.buckets (length s.buckets)) (mmc_hash hashing key) w h
                (sym (if_true (ltb 1 s.num_servers) _ _ many) ∙ e) l f (standard-Homed hashing))
          | inr one ↦ otherwise (Homed env k m) (ltb 1 s.num_servers) _ _ one (
              only-Homed (settle_standard env cfg hashing none) (get_or s.buckets 0 0) w
                (sym (if_false (ltb 1 s.num_servers) _ _ one) ∙ e) l f (standard-Homed hashing))
        ])

    pub consistent_choose-Homed :
        (hashing : Bytes → ℕ) (s : State) (key : Bytes) (w : World)
        → cfg.allow_failover ≡ false
        → consistent_home hashing s key ≡ m
        → AllLive w
        → FitAt env k m w
        → Ends (Homed env k m) (consistent_choose env cfg hashing s key none w)
    unfolding consistent_choose
    consistent_choose-Homed hashing s key w h e l f = elim (Bool-cases (ltb 1 s.num_servers)) [
      | inl many ↦ when_true (Homed env k m) (ltb 1 s.num_servers) _ _ many (
          loop-Homed (settle_consistent env cfg none) (λ i h. hashing (consistent_key key i))
            (bucket_of s.buckets consistent_buckets) (hashing key) w h
            (sym (if_true (ltb 1 s.num_servers) _ _ many) ∙ e) l f consistent-Homed)
      | inr one ↦ otherwise (Homed env k m) (ltb 1 s.num_servers) _ _ one (
          only-Homed (settle_consistent env cfg none) (get_or s.points 0 no_point).server w
            (sym (if_false (ltb 1 s.num_servers) _ _ one) ∙ e) l f consistent-Homed)
    ]
