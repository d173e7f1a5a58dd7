-- ===== src/Server/Steps.antt =====
-- How near a server is to being given up: the steps of its state while its retry interval has not passed.
use php_pecl_memcache_zynga.Prelude.{
  ℕ, suc, ◌+◌, ◌≤◌, ◌<◌, ◌≡◌, refl, sym, ap, ◌∙◌, false, Option, none, some, arith, leb,
}
use mathlib.Core.Path.{subst}
use php_pecl_memcache_zynga.Prelude.Int.{ℤ, pos, negsuc}
use php_pecl_memcache_zynga.Net.{
  Status, failed_status, disconnected, unknown, connected, Server, Answer, Env, World, update,
  servers-update_self,
}
use php_pecl_memcache_zynga.Server.{
  server_seterror, server_disconnect, server_deactivate, server_failure, failure_by_proxy,
  failure_by_status, close_stream,
}
use php_pecl_memcache_zynga.Server.Open.{
  mmc_open, open_by_status, open_now, opened_or_error, close_open_stream, connect_loop, error_text,
  retry_due, due_at, retry_failed,
}
use php_pecl_memcache_zynga.Server.Live.{failed_server, deactivate-servers}
use php_pecl_memcache_zynga.Server.Failure.{Ends, Kept, life}
use php_pecl_memcache_zynga.Server.Connect.{connect_loop_lem}

-- The failures left before the server is given up.
unfoldable pub weight : Status → ℕ
weight failed_status = 0
weight connected = 1
weight disconnected = 2
weight unknown = 3

-- The clock does not pass the retry interval; a negative one never passes.
abbrev pub Quick : Env → ℤ → Type 0
Quick env (negsuc k) = Unit {0}
Quick env (pos k) = (m n : ℕ) → env.time n < env.time m + k

-- A failed server failed at a time of the clock.
abbrev pub FailedAt : Env → Status → ℕ → Type 0
FailedAt env failed_status failed = (m : ℕ) × (failed ≡ env.time m)
FailedAt env _ failed = Unit {0}

-- At most `k` failures are left of the server, which is not tried again meanwhile.
pub record Fit (env : Env) (k : ℕ) (t : Status × (ℕ × ℤ)) : Type 0 where
  pub quick : Quick env t.1.1
  pub failed_at : FailedAt env t.0 t.1.0
  pub light : weight t.0 ≤ k

abbrev pub FitAt : Env → ℕ → ℕ → World → Type 0
FitAt env k i w = Fit env k (life (w.servers i))

pub Fit-mono : (env : Env) (k l : ℕ) (t : Status × (ℕ × ℤ)) → k ≤ l → Fit env k t → Fit env l t
Fit-mono env k l t h f = record {
  quick = f.quick;
  failed_at = f.failed_at;
  light = omega (arith, f.light, h);
}

module _ (env : Env) where
  pub updated-FitAt :
      (k i : ℕ) (v : Server) (w : World) → Fit env k (life v) → FitAt env k i (update i v w)
  updated-FitAt k i v w f =
      subst (λ (s : Server). Fit env k (life s)) (sym (servers-update_self i v w)) f

  pub Kept-FitAt : (k i : ℕ) (w w' : World) → Kept i w w' → FitAt env k i w → FitAt env k i w'
  Kept-FitAt k i w w' h f = subst (λ (t : Status × (ℕ × ℤ)). Fit env k t) (sym h.same_life) f

  abbrev retry_of : ℕ → World → ℤ
  retry_of i w = (w.servers i).retry_interval

  disconnect-retry : (i : ℕ) (w : World) → retry_of i (server_disconnect i w) ≡ retry_of i w
  unfolding server_disconnect close_stream
  disconnect-retry i w = kept (w.servers i).stream
    where
      v : Server
      v = record (w.servers i) { stream = none; status = disconnected }

      kept : (o : Option ℕ) → retry_of i (update i v (close_stream o w)) ≡ retry_of i w
      kept o = ap (λ (s : Server). s.retry_interval) (servers-update_self i v (close_stream o w))

  -- A deactivated server has no failure left.
  pub deactivate-FitAt :
      (i : ℕ) (w : World) → Quick env (retry_of i w) → FitAt env 0 i (server_deactivate env i w)
  unfolding failed_server weight
  deactivate-FitAt i w q =
      subst (λ (s : Server). Fit env 0 (life s)) (sym (deactivate-servers env i w))
        (record {
          quick = subst (λ (r : ℤ). Quick env r) (sym (disconnect-retry i w)) q;
          failed_at = ((server_disconnect i w).calls, refl);
          light = omega arith;
        })

  or_error-FitAt :
      (o : Option ℕ) (a : Answer) (i : ℕ) (w : World)
      → Quick env (retry_of i w)
      → FitAt env 1 i (opened_or_error env o a i w).1
  unfolding opened_or_error server_seterror weight
  or_error-FitAt none a i w q =
      let w' = server_seterror i (error_text env a.errstr) a.err w in
      Fit-mono env 0 1 (life ((server_deactivate env i w').servers i)) (omega arith) (
        deactivate-FitAt i w'
          (subst (λ (s : Server). Quick env s.retry_interval) (sym (servers-update_self i _ w)) q))
  or_error-FitAt (some st) a i w q =
      updated-FitAt 1 i
        (record (w.servers i) {
          stream = some st;
          status = connected;
          got_options = false;
          error = none;
        })
        w (record { quick = q; failed_at = tt; light = omega arith })

  close-retry :
      (o : Option ℕ) (i : ℕ) (w : World) → retry_of i (close_open_stream env o i w) ≡ retry_of i w
  unfolding close_open_stream
  close-retry none i w = refl
  close-retry (some st) i w = disconnect-retry i w

  open_now-FitAt :
      (retries i : ℕ) (w : World)
      → Quick env (retry_of i w)
      → FitAt env 1 i (open_now env retries i w).1
  unfolding open_now
  open_now-FitAt retries i w q =
      let w' = close_open_stream env (w.servers i).stream i w in
      let a : Answer × World = connect_loop env retries w' in
      or_error-FitAt a.0.opened a.0 i a.1 (
        subst (λ (r : ℤ). Quick env r)
          (sym (
            ap (λ (f : ℕ → Server). (f i).retry_interval)
              (connect_loop_lem env retries w').same_servers
            ∙ close-retry (w.servers i).stream i w))
          q)

  not_due : (f n t : ℕ) (m : ℕ) → f ≡ env.time m → t < env.time m + n → leb (f + n) t ≡ false
  not_due f n t m e h = rw e (ground arith)

  failed-FitAt :
      (retries i : ℕ) (r : ℤ) (failed k : ℕ) (w : World)
      → Quick env r
      → FailedAt env failed_status failed
      → FitAt env k i w
      → Ends (λ b. FitAt env k i) (retry_failed env retries i (due_at env retries r failed w))
  unfolding due_at retry_failed
  failed-FitAt retries i (negsuc n) failed k w q a f = f
  failed-FitAt retries i (pos n) failed k w q a f =
      rw (not_due failed n (env.time w.calls) a.0 a.1 (q a.0 w.calls)) f

  two_more : (k : ℕ) → 2 ≤ k → 1 ≤ k
  two_more k h = omega arith

  -- An opening that may not check costs nothing.
  pub mmc_open-FitAt :
      (retries i k : ℕ) (w : World)
      → FitAt env k i w
      → Ends (λ b. FitAt env k i) (mmc_open env retries i false w)
  unfolding mmc_open open_by_status retry_due weight
  mmc_open-FitAt retries i k w f = go (w.servers i).status refl f.failed_at f.light
    where
      go :
          (s : Status)
          → (w.servers i).status ≡ s
          → FailedAt env s (w.servers i).failed
          → weight s ≤ k
          → Ends (λ b. FitAt env k i) (open_by_status env retries s false i w)
      go disconnected e a h =
          Fit-mono env 1 k (life ((open_now env retries i w).1.servers i)) (two_more k h)
            (open_now-FitAt retries i w f.quick)
      go connected e a h = f
      go unknown e a h = f
      go failed_status e a h =
          failed-FitAt retries i (w.servers i).retry_interval (w.servers i).failed k w f.quick a f

  -- The server is open as far as it is known.
  abbrev pub OpenStatus : Status → Type 0
  OpenStatus connected = Unit {0}
  OpenStatus unknown = Unit {0}
  OpenStatus disconnected = ⊥
  OpenStatus failed_status = ⊥

  by_status-FitAt :
      (s : Status) (k i : ℕ) (w : World)
      → OpenStatus s
      → Quick env (retry_of i w)
      → weight s ≤ suc k
      → FitAt env k i (failure_by_status env s i w).1
  unfolding failure_by_status weight
  by_status-FitAt failed_status k i w o q h = elim o [ ]
  by_status-FitAt disconnected k i w o q h = elim o [ ]
  by_status-FitAt unknown k i w o q h =
      updated-FitAt k i (record (w.servers i) { status = disconnected }) w
        (record { quick = q; failed_at = tt; light = omega arith })
  by_status-FitAt connected k i w o q h =
      Fit-mono env 0 k (life ((server_deactivate env i w).servers i)) (omega arith)
        (deactivate-FitAt i w q)

  -- A failure of an open server costs one.
  pub failure-FitAt :
      (k i : ℕ) (w : World)
      → (w.servers i).proxy ≡ none
      → OpenStatus (w.servers i).status
      → FitAt env (suc k) i w
      → FitAt env k i (server_failure env i w).1
  unfolding server_failure failure_by_proxy
  failure-FitAt k i w p o f =
      subst (λ (t : Option ℕ). FitAt env k i (failure_by_proxy env t i w).1) (sym p)
        (by_status-FitAt (w.servers i).status k i w o f.quick f.light)

  any_status-FitAt :
      (s : Status) (k i : ℕ) (w : World)
      → Quick env (retry_of i w)
      → weight s ≤ k
      → FitAt env k i w
      → FitAt env k i (failure_by_status env s i w).1
  unfolding failure_by_status weight
  any_status-FitAt disconnected k i w q h f = f
  any_status-FitAt unknown k i w q h f =
      updated-FitAt k i (record (w.servers i) { status = disconnected }) w
        (record { quick = q; failed_at = tt; light = omega arith })
  any_status-FitAt connected k i w q h f =
      Fit-mono env 0 k (life ((server_deactivate env i w).servers i)) (omega arith)
        (deactivate-FitAt i w q)
  any_status-FitAt failed_status k i w q h f =
      Fit-mono env 0 k (life ((server_deactivate env i w).servers i)) (omega arith)
        (deactivate-FitAt i w q)

  -- A failure never adds one.
  pub failure-FitAt_any :
      (k i : ℕ) (w : World)
      → (w.servers i).proxy ≡ none
      → FitAt env k i w
      → FitAt env k i (server_failure env i w).1
  unfolding server_failure failure_by_proxy
  failure-FitAt_any k i w p f =
      subst (λ (t : Option ℕ). FitAt env k i (failure_by_proxy env t i w).1) (sym p)
        (any_status-FitAt (w.servers i).status k i w f.quick f.light f)
