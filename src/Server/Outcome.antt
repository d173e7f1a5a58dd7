-- ===== src/Server/Outcome.antt =====
-- What a failure leaves, and how long a failed server is left alone.
use php_pecl_memcache_zynga.Prelude.{
  ℕ, ◌+◌, ◌<◌, ◌≡◌, refl, sym, ap, ◌∙◌, Bool, true, false, Option, none, some, arith, leb,
}
use mathlib.Core.Path.{subst}
use php_pecl_memcache_zynga.Prelude.Int.{ℤ, pos}
use php_pecl_memcache_zynga.Net.{
  Status, failed_status, disconnected, unknown, connected, Server, Env, World, tick, update, emit,
  servers-update_self,
}
use php_pecl_memcache_zynga.Server.{
  ret, server_disconnect, server_deactivate, server_failure, failure_by_proxy, failure_by_status,
  close_stream,
}
use php_pecl_memcache_zynga.Server.Open.{mmc_open, open_by_status, retry_due, due_at, retry_failed}
use php_pecl_memcache_zynga.Server.Live.{
  AllLive, failure-AllLive, deactivate-status, deactivate-servers, failed_server,
}

-- The state that each result of `mmc_server_failure` goes with: hard, or to be tried again.
abbrev pub StatusAfterFailure : Bool → Status → Type 0
StatusAfterFailure true s = s ≡ failed_status
StatusAfterFailure false s = s ≡ disconnected

module _ (env : Env) where
  by_status-outcome :
      (s : Status) (i : ℕ) (w : World)
      → (w.servers i).status ≡ s
      → let r : Bool × World = failure_by_status env s i w in
        StatusAfterFailure r.0 (r.1.servers i).status
  unfolding failure_by_status
  by_status-outcome disconnected i w e = e
  by_status-outcome unknown i w e =
      ap (λ (s : Server). s.status)
        (servers-update_self i (record (w.servers i) { status = disconnected }) w)
  by_status-outcome failed_status i w e = deactivate-status env i w
  by_status-outcome connected i w e = deactivate-status env i w

  by_proxy-outcome :
      (o : Option ℕ) (i : ℕ) (w : World)
      → let r : Bool × World = failure_by_proxy env o i w in
        StatusAfterFailure r.0 (r.1.servers i).status
  unfolding failure_by_proxy
  by_proxy-outcome none i w = by_status-outcome (w.servers i).status i w refl
  by_proxy-outcome (some p) i w = deactivate-status env i (server_disconnect p w)

  -- `mmc_server_failure` in a live store: it answers true, for a hard failure, with a failed server,
  -- and false, for another try, with a disconnected one; and the store is live again.
  pub server_failure_lem :
      (i : ℕ) (w : World)
      → AllLive w
      → let r : Bool × World = server_failure env i w in
        StatusAfterFailure r.0 (r.1.servers i).status × AllLive r.1
  unfolding server_failure
  server_failure_lem i w l = (by_proxy-outcome (w.servers i).proxy i w, failure-AllLive env i w l)

  not_due-ret :
      (retries i : ℕ) (b : Bool) (w : World)
      → b ≡ false
      → retry_failed env retries i (b, w) ≡ ret false w
  unfolding retry_failed
  not_due-ret retries i true w e = cc e
  not_due-ret retries i false w e = refl

  left_alone :
      (retries n i : ℕ) (force : Bool) (w : World)
      → (w.servers i).status ≡ failed_status
      → (w.servers i).retry_interval ≡ pos n
      → env.time w.calls < (w.servers i).failed + n
      → mmc_open env retries i force w ≡ ret false (tick w)
  unfolding mmc_open open_by_status retry_due due_at
  left_alone retries n i force w f r t =
      subst (λ (s : Status). open_by_status env retries s force i w ≡ ret false (tick w)) (sym f)
        (subst
          (λ (k : ℤ).
            retry_failed env retries i (due_at env retries k (w.servers i).failed w)
            ≡ ret false (tick w))
          (sym r)
          (not_due-ret retries i (leb ((w.servers i).failed + n) (env.time w.calls)) (tick w)
            (late t)))
    where
      late :
          env.time w.calls < (w.servers i).failed + n
          → leb ((w.servers i).failed + n) (env.time w.calls) ≡ false
      late t = ground arith

  deactivate-calls : (i : ℕ) (w : World) → (server_disconnect i w).calls ≡ w.calls
  unfolding server_disconnect update close_stream emit
  deactivate-calls i w = go (w.servers i).stream
    where
      go : (o : Option ℕ) → (close_stream o w).calls ≡ w.calls
      go none = refl
      go (some st) = refl

  disconnect-interval :
      (i : ℕ) (w : World)
      → ((server_disconnect i w).servers i).retry_interval ≡ (w.servers i).retry_interval
  unfolding server_disconnect
  disconnect-interval i w =
      ap (λ (s : Server). s.retry_interval)
        (servers-update_self i (record (w.servers i) { stream = none; status = disconnected })
          (close_stream (w.servers i).stream w))

  -- A server that was deactivated is left alone until its retry interval is over: until then
  -- `mmc_open` answers false, forced or not, and does nothing but read the clock.
  pub deactivate-backs_off :
      (retries n i : ℕ) (force : Bool) (w : World)
      → (w.servers i).retry_interval ≡ pos n
      → let w' : World = server_deactivate env i w in
        env.time w'.calls < env.time w.calls + n
        → mmc_open env retries i force w' ≡ ret false (tick w')
  unfolding failed_server
  deactivate-backs_off retries n i force w r t =
      left_alone retries n i force (server_deactivate env i w) (deactivate-status env i w)
        (ap (λ (s : Server). s.retry_interval) e ∙ (disconnect-interval i w ∙ r))
        (subst (λ (k : ℕ). env.time (server_deactivate env i w).calls < k + n)
          (sym (ap (λ (s : Server). s.failed) e ∙ ap env.time (deactivate-calls i w))) t)
    where
      e : (server_deactivate env i w).servers i ≡ failed_server env i w
      e = deactivate-servers env i w
