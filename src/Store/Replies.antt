-- ===== src/Store/Replies.antt =====
-- The results of `mmc_server_store`, and what it keeps.
use php_pecl_memcache_zynga.Prelude.{
  ℕ, zero, suc, ◌||◌, Bool, true, false, Option, none, some, if◌then◌else◌, [],
}
use php_pecl_memcache_zynga.Prelude.Int.{ℤ, pos, negsuc}
use php_pecl_memcache_zynga.Prelude.Bytes.{Bytes, bytes}
use php_pecl_memcache_zynga.Net.{Env, World}
use php_pecl_memcache_zynga.Server.{Run, ret, ◌>>=◌}
use php_pecl_memcache_zynga.Server.Failure.{Ends, Kept}
use php_pecl_memcache_zynga.Command.{Done, server_store}
use php_pecl_memcache_zynga.Command.Live.{commands-Kept}
use php_pecl_memcache_zynga.Pool.Options.{Sendable}
use php_pecl_memcache_zynga.Net.{str_left, mmc_str}
use php_pecl_memcache_zynga.Command.{
  mc_not_stored, mc_not_found, mc_exists, mc_tmp_fail, mc_server_mem_error, mc_lock_error, failure,
  coded, store_reply, stored_reply, store_refusal, reply_or_error, read_reply, if_sent,
  write_prefix, write_request,
}
use php_pecl_memcache_zynga.Server.{crash, readline}

-- What holds of the end of a run, if it has one.
abbrev Returns : {A : Type 0} → (A → Type 0) → Run A → Type 0
Returns P (ret a w) = P a
Returns P crash = Unit {0}

Returns->>= :
    {A B : Type 0} (Q : B → Type 0) (r : Run A) (f : A → World → Run B)
    → ((a : A) (w : World) → Returns Q (f a w))
    → Returns Q (r >>= f)
Returns->>= Q (ret a w) f h = h a w
Returns->>= Q crash f h = tt

with-Returns :
    {A : Type 0} (P : A → World → Type 0) (Q : A → Type 0) (r : Run A)
    → Ends P r
    → Returns Q r
    → Ends (λ a w. P a w × Q a) r
with-Returns P Q (ret a w) p q = (p, q)
with-Returns P Q crash p q = elim p [ ]

-- The results of `mmc_server_store`: 1, 0, -1 or -2.
abbrev pub KnownResult : ℤ → Type 0
KnownResult (pos n) = Unit {0}
KnownResult (negsuc zero) = Unit {0}
KnownResult (negsuc (suc zero)) = Unit {0}
KnownResult (negsuc (suc (suc n))) = ⊥

data KnownReply : Option Done → Type 0 where
  known_error : KnownReply none
  known_reply : {d : Done} → KnownResult d.result → KnownReply (some d)

module _ (env : Env) where
  or_else :
      (b : Bool) (d : Done) {o : Option Done}
      → KnownResult d.result
      → KnownReply o
      → KnownReply (if b then some d else o)
  or_else true d k q = known_reply k
  or_else false d k q = q

  store_reply-Known : (inbuf : Bytes) → KnownReply (store_reply env inbuf)
  unfolding store_reply store_refusal stored_reply
  store_reply-Known inbuf =
      or_else (str_left env inbuf (bytes "STORED")) (stored_reply env inbuf) tt (
        or_else (str_left env inbuf (bytes "NOT_STORED")) (coded (pos 0) mc_not_stored) tt (
          or_else (str_left env inbuf (bytes "NOT_FOUND")) (coded (pos 0) mc_not_found) tt (
            or_else (str_left env inbuf (bytes "EXISTS")) (coded (pos 0) mc_exists) tt (
              or_else (mmc_str env inbuf (bytes "temporary failure")) (coded (pos 0) mc_tmp_fail) tt
                (or_else
                  (str_left env inbuf (bytes "SERVER_ERROR out of memory")
                    || str_left env inbuf (bytes "SERVER_ERROR object too large"))
                  (coded (pos 0) mc_server_mem_error) tt
                  (or_else (str_left env inbuf (bytes "LOCK_ERROR")) (coded (pos 0) mc_lock_error)
                    tt
                    (or_else (str_left env inbuf (bytes "SERVER_ERROR checksum failed"))
                      (failure (negsuc 1)) tt known_error)))))))

  reply-Known :
      (o : Option Done) (i len : ℕ) (w : World)
      → KnownReply o
      → Returns (λ d. KnownResult d.result) (reply_or_error env o (failure (negsuc 0)) i len w)
  unfolding reply_or_error
  reply-Known none i len w k = tt
  reply-Known (some d) i len w (known_reply k) = k

  read_reply-Known :
      (i : ℕ) (o : Option ℕ) (w : World)
      → Returns
          (λ d. KnownResult d.result)
          (read_reply env (store_reply env) (failure (negsuc 0)) (failure (negsuc 0)) i (o, w))
  unfolding read_reply
  read_reply-Known i none w = tt
  read_reply-Known i (some len) w =
      reply-Known (store_reply env (w.servers i).inbuf) i len w
        (store_reply-Known (w.servers i).inbuf)

  if_sent-Known :
      (i : ℕ) (b : Bool) (w : World)
      → Returns
          (λ d. KnownResult d.result)
          (if_sent env (store_reply env) (failure (negsuc 0)) (failure (negsuc 0)) i b w)
  unfolding if_sent
  if_sent-Known i false w = tt
  if_sent-Known i true w = read_reply-Known i (readline env i w).0 (readline env i w).1

  server_store-Known :
      (i : ℕ) (request : Bytes) (w : World)
      → Returns (λ d. KnownResult d.result) (server_store env i request w)
  unfolding server_store
  server_store-Known i request w =
      Returns->>= (λ d. KnownResult d.result) (write_prefix env i w >>= write_request env request i)
        (if_sent env (store_reply env) (failure (negsuc 0)) (failure (negsuc 0)) i)
        (λ b w'. if_sent-Known i b w')

  -- `mmc_server_store` keeps what is left of the server.
  pub server_store-Kept :
      (i : ℕ) (request : Bytes) (w : World)
      → Sendable i w
      → Ends (λ d w'. Kept i w w' × KnownResult d.result) (server_store env i request w)
  server_store-Kept i request w s =
      with-Returns (λ d. Kept i w) (λ d. KnownResult d.result) (server_store env i request w)
        (commands-Kept env i [] request (pos 0) true (pos 0) w s.no_proxy s.has_stream s.live).1.1
        (server_store-Known i request w)
