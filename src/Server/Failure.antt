-- ===== src/Server/Failure.antt =====
-- Reading and sending in a live store.
use php_pecl_memcache_zynga.Prelude.{
  ℕ, ◌≡◌, refl, ap, ◌∙◌, Bool, true, false, [], ◌∷◌, ◌++◌, Option, none, some,
}
use php_pecl_memcache_zynga.Prelude.Bytes.{Bytes, bytes}
use php_pecl_memcache_zynga.Prelude.Int.{ℤ}
use php_pecl_memcache_zynga.Net.{
  Status, Server, Env, World, update, emit, tick, servers-update_self, wrote,
}
use php_pecl_memcache_zynga.Server.{
  server_seterror, readline, read_loop, read_failed, read_stream, read_round, sendcmd, send_on,
  sent_or_error, proxy_prefix, stream_write, stream_of, Run, ret, crash, ◌>>=◌,
}
use php_pecl_memcache_zynga.Server.Live.{
  HasStream, AllLive, AllLive-update, AllLive-same, seterror-AllLive,
}

-- The run reaches its end, where the predicate holds.
abbrev pub Ends : {A : Type 0} → (A → World → Type 0) → Run A → Type 0
Ends P (ret a w) = P a w
Ends P crash = ⊥

pub Ends->>= :
    {A B : Type 0} (P : A → World → Type 0) (Q : B → World → Type 0)
    → (r : Run A) (f : A → World → Run B) → ((a : A) (w : World) → P a w → Ends Q (f a w))
    → Ends P r
    → Ends Q (r >>= f)
Ends->>= P Q (ret a w) f h p = h a w p
Ends->>= P Q crash f h p = elim p [ ]

pub Ends-map :
    {A : Type 0} (P Q : A → World → Type 0) (r : Run A)
    → ((a : A) (w : World) → P a w → Q a w)
    → Ends P r
    → Ends Q r
Ends-map P Q (ret a w) f p = f a w p
Ends-map P Q crash f p = p

-- What decides when a server is opened again.
abbrev pub life : Server → Status × (ℕ × ℤ)
life s = (s.status, (s.failed, s.retry_interval))

-- The operation keeps the store live, and the address, proxy and state of the server.
pub record Kept (i : ℕ) (w w' : World) : Type 0 where
  pub live : AllLive w'
  pub same_proxy : (w'.servers i).proxy ≡ (w.servers i).proxy
  pub same_stream : (w'.servers i).stream ≡ (w.servers i).stream
  pub same_life : life (w'.servers i) ≡ life (w.servers i)

pub Kept-trans : (i : ℕ) (w w1 w2 : World) → Kept i w w1 → Kept i w1 w2 → Kept i w w2
Kept-trans i w w1 w2 k l = record {
  live = l.live;
  same_proxy = l.same_proxy ∙ k.same_proxy;
  same_stream = l.same_stream ∙ k.same_stream;
  same_life = l.same_life ∙ k.same_life;
}

pub seterror-Kept :
    (i : ℕ) (text : Bytes) (num : ℕ) (w : World)
    → AllLive w
    → Kept i w (server_seterror i text num w)
unfolding server_seterror
seterror-Kept i text num w l = record {
  live = seterror-AllLive i text num w l;
  same_proxy = ap (λ (s : Server). s.proxy) (servers-update_self i _ w);
  same_stream = ap (λ (s : Server). s.stream) (servers-update_self i _ w);
  same_life = ap life (servers-update_self i _ w);
}

store-Kept :
    (i : ℕ) (response : Bytes) (w : World)
    → AllLive w
    → Kept i w (update i (record (w.servers i) { inbuf = response }) (tick w))
unfolding update
store-Kept i response w l = record {
  live = AllLive-update i _ (tick w) (l.at i) (AllLive-same w _ refl l);
  same_proxy = ap (λ (s : Server). s.proxy) (servers-update_self i _ (tick w));
  same_stream = ap (λ (s : Server). s.stream) (servers-update_self i _ (tick w));
  same_life = ap life (servers-update_self i _ (tick w));
}

Kept-tick : (i : ℕ) (w w' : World) → Kept i (tick w) w' → Kept i w w'
Kept-tick i w w' k = record {
  live = k.live;
  same_proxy = k.same_proxy;
  same_stream = k.same_stream;
  same_life = k.same_life;
}

tick-AllLive : (w : World) → AllLive w → AllLive (tick w)
tick-AllLive w l = AllLive-same w _ refl l

module _ (env : Env) where
  round-Kept :
      (t : Option Bytes) (more : Option ℕ × World) (c i : ℕ) (w : World)
      → AllLive w
      → Kept i w (read_round env t more c i (tick w)).1
  unfolding read_round read_failed
  round-Kept none more c i w l = Kept-tick i w _ (seterror-Kept i _ 0 (tick w) (tick-AllLive w l))
  round-Kept (some response) more c i w l = store-Kept i response w l

  stream-Kept : (o : Option ℕ) (i : ℕ) (w : World) → AllLive w → Kept i w (read_stream env o i w).1
  unfolding read_stream read_loop
  stream-Kept none i w l = seterror-Kept i _ 0 w l
  stream-Kept (some st) i w l = round-Kept (env.line w.calls) _ 1 i w l

  pub readline-Kept : (i : ℕ) (w : World) → AllLive w → Kept i w (readline env i w).1
  unfolding readline
  readline-Kept i w l = stream-Kept (stream_of i w) i w l

  sent-Kept :
      (st i : ℕ) (text : Bytes) (w : World) (b : Bool)
      → AllLive w
      → Ends (λ _. Kept i w) (sent_or_error env (b, emit (wrote st text) (tick w)) i)
  unfolding sent_or_error emit
  sent-Kept st i text w true l = record {
    live = AllLive-same w _ refl l;
    same_proxy = refl;
    same_stream = refl;
    same_life = refl;
  }
  sent-Kept st i text w false l =
      let k =
        seterror-Kept i (bytes "Failed writing command to stream") 0 (emit (wrote st text) (tick w))
          (AllLive-same w _ refl l) in
      record {
        live = k.live;
        same_proxy = k.same_proxy;
        same_stream = k.same_stream;
        same_life = k.same_life;
      }

  -- The stream a command goes to is there.
  pub sendcmd-Kept :
      (i : ℕ) (cmd : Bytes) (w : World)
      → AllLive w
      → HasStream (stream_of i w)
      → Ends (λ _. Kept i w) (sendcmd env i cmd w)
  unfolding sendcmd send_on stream_write
  sendcmd-Kept i cmd w l h = go (stream_of i w) h
    where
      go :
          (o : Option ℕ)
          → HasStream o
          → Ends
              (λ _. Kept i w)
              (send_on env o i (proxy_prefix env i w ++ (cmd ++ (13 ∷ 10 ∷ []))) w)
      go none h = elim h [ ]
      go (some st) h = sent-Kept st i _ w _ l
