-- ===== src/Value/Whole.antt =====
-- The whole read of a value that was stored.
use php_pecl_memcache_zynga.Prelude.{
  ℕ, zero, suc, ◌+◌, ◌-◌, ◌≡◌, refl, sym, ap, ◌∙◌, Bool, true, false, not, [], ◌∷◌, ◌++◌, Option,
  none, some, ◌==◌, length, take, length-append,
}
use php_pecl_memcache_zynga.Prelude.Int.{pos}
use php_pecl_memcache_zynga.Prelude.Bytes.{Bytes, bytes, starts_with}
use php_pecl_memcache_zynga.Net.{
  Env, FindsFirst, Server, World, tick, update, servers-update_self, str_left, str_left_lem,
}
use php_pecl_memcache_zynga.Server.{stream_of, readline, read_stream, read_loop, read_round}
use php_pecl_memcache_zynga.Header.{
  Fields, Parsed, parsed, parse_header, parse_response, error_of_header,
}
use php_pecl_memcache_zynga.Header.Words.{take-append}
use php_pecl_memcache_zynga.Value.Check.{ValueEnv, ValueCheck, accepted, check_value}
use php_pecl_memcache_zynga.Value.Body.{read_more, read_from, read_body}
use php_pecl_memcache_zynga.Value.Arrives.{Arrives, read_body-Arrives}
use php_pecl_memcache_zynga.Value.{
  ValueRead, to_nat, checked_result, read_checked, read_parsed, read_header, read_line,
  mmc_read_value,
}

-- The loop touches no server.
servers-read_more :
    (env : Env) (again : ℕ → Bytes → World → Option Bytes × World) (left : ℕ) (t acc : Bytes)
    (w : World)
    → ((left : ℕ) (acc : Bytes) → (again left acc w).1.servers ≡ w.servers)
    → (read_more env again left t acc w).1.servers ≡ w.servers
unfolding read_more
servers-read_more env again left [] acc w h = refl
servers-read_more env again left (c ∷ cs) acc w h = h (left - suc (length cs)) (acc ++ (c ∷ cs))

servers-read_from :
    (env : Env) (fuel left : ℕ) (acc : Bytes) (w : World)
    → (read_from env fuel left acc w).1.servers ≡ w.servers
unfolding read_from
servers-read_from env zero zero acc w = refl
servers-read_from env (suc fuel) zero acc w = refl
servers-read_from env zero (suc left) acc w = refl
servers-read_from env (suc fuel) (suc left) acc w =
    servers-read_more env (read_from env fuel) (suc left)
      (take (suc left) (env.read w.calls (suc left))) acc (tick w)
      (λ left acc. servers-read_from env fuel left acc (tick w))

servers-read_body :
    (env : Env) (size : ℕ) (acc : Bytes) (w : World)
    → (read_body env size acc w).1.servers ≡ w.servers
unfolding read_body
servers-read_body env size acc w = servers-read_from env size size acc w

-- The world behind the header line.
line_read : ℕ → Bytes → World → World
line_read i line w = update i (record (w.servers i) { inbuf = line }) (tick w)

readline-line :
    (env : Env) (i st : ℕ) (line : Bytes) (w : World)
    → stream_of i w ≡ some st
    → env.line w.calls ≡ some line
    → readline env i w ≡ (some (length line), line_read i line w)
unfolding readline read_stream read_loop read_round line_read
readline-line env i st line w s r =
    ap (λ (o : Option ℕ). read_stream env o i w) s
    ∙ ap (λ (o : Option Bytes). read_round env o (read_loop env 2 1 i (tick w)) 1 i (tick w)) r

module _ (e : ValueEnv) (i : ℕ) (value : Bytes) where
  -- The result of a read whose bytes are accepted.
  abbrev pub got : Fields → ValueRead
  got f = record { result = pos 1; code = none; value = some value; header = some f }

  accepted-got :
      (f : Fields) (c : ValueCheck) (w : World)
      → c ≡ accepted value
      → (checked_result e f c i w).0 ≡ got f
  unfolding checked_result
  accepted-got f c w h = ap (λ (c : ValueCheck). (checked_result e f c i w).0) h

  checked-got :
      (f : Fields) (text : Bytes) (algo : ℕ) (o : Option Bytes) (w : World)
      → o ≡ some (text ++ bytes "\r\n")
      → (w.servers i).di_algo_in_use ≡ algo
      → to_nat f.value_len ≡ length text
      → check_value e algo (to_nat f.flags) f.chksum text ≡ accepted value
      → (read_checked e f i (o, w)).0 ≡ got f
  unfolding read_checked
  checked-got f text algo o w a b c d =
      ap (λ (o : Option Bytes). (read_checked e f i (o, w)).0) a
      ∙ accepted-got f _ w (
          ap
            (λ (n : ℕ).
              check_value e n (to_nat f.flags) f.chksum
                (take (to_nat f.value_len) (text ++ bytes "\r\n")))
            b
          ∙ (ap (λ (t : Bytes). check_value e algo (to_nat f.flags) f.chksum t)
                (ap (λ (n : ℕ). take n (text ++ bytes "\r\n")) c ∙ take-append text (bytes "\r\n"))
              ∙ d))

  -- Behind a header line that was parsed.
  parsed-got :
      (f : Fields) (text : Bytes) (algo : ℕ) (w : World)
      → (w.servers i).di_algo_in_use ≡ algo
      → to_nat f.value_len ≡ length text
      → Arrives e.env w.calls (text ++ bytes "\r\n")
      → check_value e algo (to_nat f.flags) f.chksum text ≡ accepted value
      → (read_parsed e i (some f, w)).0 ≡ got f
  unfolding read_parsed
  parsed-got f text algo w b c a d =
      let size : to_nat f.value_len + 2 ≡ length (text ++ bytes "\r\n") =
        ap (λ (n : ℕ). n + 2) c ∙ sym (length-append text (bytes "\r\n")) in
      checked-got f text algo (read_body e.env (to_nat f.value_len + 2) [] w).0
        (read_body e.env (to_nat f.value_len + 2) [] w).1
        (ap (λ (n : ℕ). (read_body e.env n [] w).0) size
          ∙ read_body-Arrives e.env (text ++ bytes "\r\n") w a)
        (ap (λ (s : ℕ → Server). (s i).di_algo_in_use)
            (servers-read_body e.env (to_nat f.value_len + 2) [] w)
          ∙ b)
        c d

  header-parsed :
      (with_cas : Bool) (line : Bytes) (f : Fields) (w : World)
      → (w.servers i).inbuf ≡ line
      → (w.servers i).di_algo_in_use ≡ 2
      → parse_header true with_cas line ≡ parsed f
      → parse_response e.env with_cas i (w.servers i).inbuf w ≡ (some f, w)
  unfolding parse_response error_of_header
  header-parsed with_cas line f w ib al ph =
      let t : Bytes = (w.servers i).inbuf in
      ap (λ (n : ℕ). error_of_header e.env (parse_header (not (n == 0)) with_cas t) i (length t) w)
        al
      ∙ (ap (λ (t : Bytes). error_of_header e.env (parse_header true with_cas t) i (length t) w) ib
          ∙ ap (λ (x : Parsed). error_of_header e.env x i (length line) w) ph)

  -- Behind a line that was read.
  line-got :
      (in_multi with_cas : Bool) (line : Bytes) (f : Fields) (text : Bytes) (w : World)
      → FindsFirst e.env.memnstr
      → starts_with (bytes "END") line ≡ false
      → (w.servers i).inbuf ≡ line
      → (w.servers i).di_algo_in_use ≡ 2
      → parse_header true with_cas line ≡ parsed f
      → to_nat f.value_len ≡ length text
      → Arrives e.env w.calls (text ++ bytes "\r\n")
      → check_value e 2 (to_nat f.flags) f.chksum text ≡ accepted value
      → (read_line e in_multi with_cas i (some (length line), w)).0 ≡ got f
  unfolding read_line read_header
  line-got in_multi with_cas line f text w ff n ib al ph len a d =
      ap (λ (b : Bool). (read_header e b in_multi with_cas i w).0)
        (ap (λ (t : Bytes). str_left e.env t (bytes "END")) ib
          ∙ (str_left_lem e.env line (bytes "END") ff ∙ n))
      ∙ (ap (λ (x : Option Fields × World). (read_parsed e i x).0)
            (header-parsed with_cas line f w ib al ph)
          ∙ parsed-got f text 2 w al len a d)

  -- A read from the start.
  pub read-got :
      (in_multi with_cas : Bool) (st : ℕ) (line : Bytes) (f : Fields) (text : Bytes) (w : World)
      → FindsFirst e.env.memnstr
      → stream_of i w ≡ some st
      → (w.servers i).di_algo_in_use ≡ 2
      → e.env.line w.calls ≡ some line
      → starts_with (bytes "END") line ≡ false
      → parse_header true with_cas line ≡ parsed f
      → to_nat f.value_len ≡ length text
      → Arrives e.env (suc w.calls) (text ++ bytes "\r\n")
      → check_value e 2 (to_nat f.flags) f.chksum text ≡ accepted value
      → (mmc_read_value e in_multi with_cas i w).0 ≡ got f
  unfolding mmc_read_value line_read
  read-got in_multi with_cas st line f text w ff s al r n ph len a d =
      let same : (line_read i line w).servers i ≡ record (w.servers i) { inbuf = line } =
        servers-update_self i (record (w.servers i) { inbuf = line }) (tick w) in
      ap (λ (x : Option ℕ × World). (read_line e in_multi with_cas i x).0)
        (readline-line e.env i st line w s r)
      ∙ line-got in_multi with_cas line f text (line_read i line w) ff n
          (ap (λ (v : Server). v.inbuf) same) (ap (λ (v : Server). v.di_algo_in_use) same ∙ al) ph
          len a d
