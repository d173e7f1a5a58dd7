-- ===== src/Command/Live.antt =====
-- The three commands, their streams and the store.
use php_pecl_memcache_zynga.Prelude.{
  ℕ, ◌≡◌, refl, sym, ap, ◌∙◌, Bool, true, false, Option, none, some, ◌++◌, ltb, if◌then◌else◌, take,
}
use mathlib.Core.Path.{subst}
use php_pecl_memcache_zynga.Prelude.Int.{ℤ, negsuc}
use php_pecl_memcache_zynga.Prelude.Numbers.{print_ℤ}
use php_pecl_memcache_zynga.Prelude.Bytes.{Bytes, bytes}
use php_pecl_memcache_zynga.Net.{Server, Env, World, tick, emit, update, wrote, servers-update_self}
use php_pecl_memcache_zynga.Server.{Run, ◌>>=◌, stream_of, readline, sendcmd, stream_write}
use php_pecl_memcache_zynga.Server.Live.{HasStream, AllLive, AllLive-update, AllLive-same}
use php_pecl_memcache_zynga.Server.Failure.{
  life, Ends, Ends->>=, Ends-map, Kept, Kept-trans, seterror-Kept, readline-Kept, sendcmd-Kept,
}
use php_pecl_memcache_zynga.Command.{
  Done, failure, coded, mc_error, readline_failed, delete_reply, incr_reply, store_reply,
  error_of_line, error_if, error_or_malformed, received_error, reply_or_error, read_reply, if_sent,
  delete, incr_decr, server_store, written_or_error, prefix_to, write_or_error, write_prefix,
  write_request,
}

pub refl-Kept : (i : ℕ) (w : World) → AllLive w → Kept i w w
refl-Kept i w l = record { live = l; same_proxy = refl; same_stream = refl; same_life = refl }

module _ (env : Env) where
  error_of_line-Kept : (i len : ℕ) (w : World) → AllLive w → Kept i w (error_of_line env i len w)
  unfolding error_of_line
  error_of_line-Kept i len w l =
      Kept-trans i w (update i v w) _
        (record {
          live = AllLive-update i v w (l.at i) l;
          same_proxy = ap (λ (s : Server). s.proxy) (servers-update_self i v w);
          same_stream = ap (λ (s : Server). s.stream) (servers-update_self i v w);
          same_life = ap life (servers-update_self i v w);
        })
        (seterror-Kept i text 0 (update i v w) (AllLive-update i v w (l.at i) l))
    where
      text : Bytes
      text = take (if ltb len 4095 then len else 4095) (w.servers i).inbuf

      v : Server
      v = record (w.servers i) { inbuf = text }

  error_if-Kept : (b : Bool) (i len : ℕ) (w : World) → AllLive w → Kept i w (error_if env b i len w)
  unfolding error_if
  error_if-Kept true i len w l = error_of_line-Kept i len w l
  error_if-Kept false i len w l = refl-Kept i w l

  malformed-Kept :
      (b c : Bool) (i len : ℕ) (w : World)
      → AllLive w
      → Kept i w (error_or_malformed env b c i len w)
  unfolding error_or_malformed
  malformed-Kept true c i len w l = error_of_line-Kept i len w l
  malformed-Kept false true i len w l = seterror-Kept i _ 0 w l
  malformed-Kept false false i len w l = seterror-Kept i _ 0 w l

  received_error-Kept : (i len : ℕ) (w : World) → AllLive w → Kept i w (received_error env i len w)
  unfolding received_error
  received_error-Kept i len w l =
      let k1 = error_if-Kept _ i len w l in
      let k2 = error_if-Kept _ i len _ k1.live in
      Kept-trans i w _ _ k1 (Kept-trans i _ _ _ k2 (malformed-Kept _ _ i len _ k2.live))

  reply-Kept :
      (o : Option Done) (bad : Done) (i len : ℕ) (w : World)
      → AllLive w
      → Ends (λ _. Kept i w) (reply_or_error env o bad i len w)
  unfolding reply_or_error
  reply-Kept none bad i len w l = received_error-Kept i len w l
  reply-Kept (some d) bad i len w l = refl-Kept i w l

  read_reply-Kept :
      (classify : Bytes → Option Done) (lost bad : Done) (i : ℕ) (o : Option ℕ) (w : World)
      → AllLive w
      → Ends (λ _. Kept i w) (read_reply env classify lost bad i (o, w))
  unfolding read_reply
  read_reply-Kept classify lost bad i none w l = refl-Kept i w l
  read_reply-Kept classify lost bad i (some len) w l = reply-Kept _ bad i len w l

  if_sent-Kept :
      (classify : Bytes → Option Done) (lost bad : Done) (i : ℕ) (b : Bool) (w w' : World)
      → Kept i w w'
      → Ends (λ _. Kept i w) (if_sent env classify lost bad i b w')
  unfolding if_sent
  if_sent-Kept classify lost bad i false w w' k = k
  if_sent-Kept classify lost bad i true w w' k =
      let r : Option ℕ × World = readline env i w' in
      let k' = readline-Kept env i w' k.live in
      Ends-map (λ _. Kept i r.1) (λ _. Kept i w) (read_reply env classify lost bad i r)
        (λ v w1. Kept-trans i w r.1 w1 (Kept-trans i w w' r.1 k k'))
        (read_reply-Kept classify lost bad i r.0 r.1 k'.live)

  sent-Kept :
      (st i : ℕ) (text error : Bytes) (w : World) (b : Bool)
      → AllLive w
      → Ends (λ _. Kept i w) (written_or_error env error i (b, emit (wrote st text) (tick w)))
  unfolding written_or_error emit
  sent-Kept st i text error w true l = record {
    live = AllLive-same w _ refl l;
    same_proxy = refl;
    same_stream = refl;
    same_life = refl;
  }
  sent-Kept st i text error w false l =
      let w' = emit (wrote st text) (tick w) in
      let k = seterror-Kept i error 0 w' (AllLive-same w w' refl l) in
      record {
        live = k.live;
        same_proxy = k.same_proxy;
        same_stream = k.same_stream;
        same_life = k.same_life;
      }

  read-Kept :
      (classify : Bytes → Option Done) (lost bad : Done) (i : ℕ) (w : World) (r : Run Bool)
      → Ends (λ _. Kept i w) r
      → Ends (λ _. Kept i w) (r >>= if_sent env classify lost bad i)
  read-Kept classify lost bad i w r =
      Ends->>= (λ _. Kept i w) (λ _. Kept i w) r (if_sent env classify lost bad i)
        (λ b w' k. if_sent-Kept classify lost bad i b w w' k)

  write-Kept :
      (o : Option ℕ) (text error : Bytes) (i : ℕ) (w : World)
      → AllLive w
      → HasStream o
      → Ends (λ _. Kept i w) (write_or_error env o text error i w)
  unfolding write_or_error stream_write
  write-Kept none text error i w l h = elim h [ ]
  write-Kept (some st) text error i w l h = sent-Kept st i text error w _ l

  pub prefix-Kept :
      (i : ℕ) (w : World)
      → (w.servers i).proxy ≡ none
      → AllLive w
      → Ends (λ _. Kept i w) (write_prefix env i w)
  unfolding write_prefix prefix_to
  prefix-Kept i w p l =
      subst (λ (o : Option ℕ). Ends (λ _. Kept i w) (prefix_to env o i w)) (sym p) (refl-Kept i w l)

  -- A server that is not behind a proxy sends to its own stream.
  own-HasStream :
      (i : ℕ) (w : World)
      → (w.servers i).proxy ≡ none
      → HasStream (w.servers i).stream
      → HasStream (stream_of i w)
  own-HasStream i w p h =
      subst
        (λ (o : Option ℕ).
          HasStream (elim o [ some q ↦ (w.servers q).stream | none ↦ (w.servers i).stream ]))
        (sym p) h

  pub request-Kept :
      (request : Bytes) (i : ℕ) (b : Bool) (w w' : World)
      → (w.servers i).proxy ≡ none
      → HasStream (w.servers i).stream
      → Kept i w w'
      → Ends (λ _. Kept i w) (write_request env request i b w')
  unfolding write_request
  request-Kept request i false w w' p h k = k
  request-Kept request i true w w' p h k =
      Ends-map (λ _. Kept i w') (λ _. Kept i w) (write_or_error env (stream_of i w') request _ i w')
        (λ b w1. Kept-trans i w w' w1 k)
        (write-Kept (stream_of i w') request _ i w' k.live
          (own-HasStream i w' (k.same_proxy ∙ p) (subst HasStream (sym k.same_stream) h)))

  -- The three commands, to a server that is not behind a proxy and has a stream, in a live store:
  -- each comes to an end, whatever is sent, read or lost; no NULL stream is used; and the store is
  -- live, with the server's stream as it was.
  pub commands-Kept :
      (i : ℕ) (key request : Bytes) (time : ℤ) (up : Bool) (value : ℤ) (w : World)
      → (w.servers i).proxy ≡ none
      → HasStream (w.servers i).stream
      → AllLive w
      → Ends (λ _. Kept i w) (delete env i key time w)
        × (Ends (λ _. Kept i w) (incr_decr env i up key value w)
            × Ends (λ _. Kept i w) (server_store env i request w))
  unfolding delete incr_decr server_store
  commands-Kept i key request time up value w p h l =
      let h' : HasStream (stream_of i w) = own-HasStream i w p h in
      (
        read-Kept (delete_reply env) (coded (negsuc 0) readline_failed) (failure (negsuc 0)) i w
            (sendcmd env i (bytes "delete " ++ (key ++ (bytes " " ++ print_ℤ time))) w)
            (sendcmd-Kept env i (bytes "delete " ++ (key ++ (bytes " " ++ print_ℤ time))) w l h'),
        (
          read-Kept (incr_reply env) (failure (negsuc 0)) (coded (negsuc 0) mc_error) i w
              (sendcmd env i (words up) w) (sendcmd-Kept env i (words up) w l h'),
          read-Kept (store_reply env) (failure (negsuc 0)) (failure (negsuc 0)) i w
              (write_prefix env i w >>= write_request env request i)
              (Ends->>= (λ _. Kept i w) (λ _. Kept i w) (write_prefix env i w)
                (write_request env request i) (λ b w' k. request-Kept request i b w w' p h k)
                (prefix-Kept i w p l)),
        ),
      )
    where
      words : Bool → Bytes
      words b =
          (if b then bytes "incr " else bytes "decr ") ++ (key ++ (bytes " " ++ print_ℤ value))
