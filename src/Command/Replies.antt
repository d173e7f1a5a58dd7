-- ===== src/Command/Replies.antt =====
-- What the replies mean: the error that a reply leaves, and the results of the store's.
use php_pecl_memcache_zynga.Prelude.{
  ℕ, ◌<◌, ◌≡◌, refl, sym, ap, ◌∙◌, ◌↔◌, ◌≢◌, Bool, true, false, ◌||◌, [], ◌∷◌, Option, none, some,
  arith, ltb, if◌then◌else◌, length, take,
}
use mathlib.Core.Path.{subst}
use php_pecl_memcache_zynga.Prelude.Int.{ℤ, pos, negsuc}
use php_pecl_memcache_zynga.Prelude.Bytes.{Bytes, bytes, starts_with}
use php_pecl_memcache_zynga.Net.{
  Server, Env, World, FindsFirst, update, str_left, mmc_str, str_left_lem, servers-update_self,
}
use php_pecl_memcache_zynga.Server.{server_seterror}
use php_pecl_memcache_zynga.Command.{
  Done, coded, failure, mc_not_stored, mc_not_found, mc_exists, mc_tmp_fail, mc_server_mem_error,
  mc_lock_error, error_of_line, error_if, error_or_malformed, received_error, store_reply,
  store_refusal, stored_reply,
}

-- The error that a reply is meant to leave behind.
pub error_text_of : Bytes → Bytes
error_text_of text =
    if starts_with (bytes "SERVER_ERROR") text
    then text
    else if starts_with (bytes "NOT_FOUND") text
    then bytes "Key does not exist or the Queue specified is not a valid one"
    else bytes "Received malformed response"

take_all : (xs : Bytes) → take (length xs) xs ≡ xs
take_all [] = refl
take_all (x ∷ xs) = ap (λ (ys : Bytes). x ∷ ys) (take_all xs)

-- The result of a reply: -1 for a reply that is an error.
pub result_of : Option Done → ℤ
result_of none = negsuc 0
result_of (some d) = d.result

record NoSuccess (o : Option Done) : Type 0 where
  no : result_of o ≢ pos 1

not_stored_if :
    (b : Bool) (d : Done) (o : Option Done)
    → d.result ≢ pos 1
    → NoSuccess o
    → NoSuccess (if b then some d else o)
unfolding result_of
not_stored_if true d o h k = record { no = h }
not_stored_if false d o h k = k

zero_no_success : pos 0 ≢ pos 1
zero_no_success e = cc e

failed_no_success : (n : ℕ) → negsuc n ≢ pos 1
failed_no_success n e = cc e

refused_if :
    (b : Bool) (code : ℕ) (o : Option Done)
    → NoSuccess o
    → NoSuccess (if b then some (coded (pos 0) code) else o)
refused_if b code o k = not_stored_if b (coded (pos 0) code) o zero_no_success k

none-NoSuccess : NoSuccess none
unfolding result_of
none-NoSuccess = record { no = failed_no_success 0 }

module _ (env : Env) where
  line_text :
      (i : ℕ) (w : World) (len : ℕ)
      → len ≡ length (w.servers i).inbuf
      → len < 4095
      → take (if ltb len 4095 then len else 4095) (w.servers i).inbuf ≡ (w.servers i).inbuf
  line_text i w len e h = rw short (
      subst (λ (n : ℕ). take n (w.servers i).inbuf ≡ (w.servers i).inbuf) (sym e)
        (take_all (w.servers i).inbuf))
    where
      short : ltb len 4095 ≡ true
      short = ground arith

  -- The line stays as it is.
  of_line-inbuf :
      (i len : ℕ) (w : World)
      → len ≡ length (w.servers i).inbuf
      → len < 4095
      → ((error_of_line env i len w).servers i).inbuf ≡ (w.servers i).inbuf
  unfolding error_of_line server_seterror
  of_line-inbuf i len w e h =
      ap (λ (s : Server). s.inbuf)
        (servers-update_self i (record ((update i v w).servers i) { error = some text; errnum = 0 })
          (update i v w))
      ∙ (ap (λ (s : Server). s.inbuf) (servers-update_self i v w) ∙ line_text i w len e h)
    where
      text : Bytes
      text = take (if ltb len 4095 then len else 4095) (w.servers i).inbuf

      v : Server
      v = record (w.servers i) { inbuf = text }

  if-inbuf :
      (b : Bool) (i len : ℕ) (w : World)
      → len ≡ length (w.servers i).inbuf
      → len < 4095
      → ((error_if env b i len w).servers i).inbuf ≡ (w.servers i).inbuf
  unfolding error_if
  if-inbuf true i len w e h = of_line-inbuf i len w e h
  if-inbuf false i len w e h = refl

  error_at :
      (i : ℕ) (text : Bytes) (w : World)
      → ((server_seterror i text 0 w).servers i).error ≡ some text
  unfolding server_seterror
  error_at i text w =
      ap (λ (s : Server). s.error)
        (servers-update_self i (record (w.servers i) { error = some text; errnum = 0 }) w)

  last-error :
      (b c : Bool) (i len : ℕ) (w : World)
      → len ≡ length (w.servers i).inbuf
      → len < 4095
      → ((error_or_malformed env b c i len w).servers i).error
        ≡ some (
            if b
            then (w.servers i).inbuf
            else if c
            then bytes "Key does not exist or the Queue specified is not a valid one"
            else bytes "Received malformed response")
  unfolding error_or_malformed error_of_line
  last-error true c i len w e h =
      let t = take (if ltb len 4095 then len else 4095) (w.servers i).inbuf in
      error_at i t (update i (record (w.servers i) { inbuf = t }) w)
      ∙ ap some (line_text i w len e h)
  last-error false true i len w e h = error_at i _ w
  last-error false false i len w e h = error_at i _ w

  -- The choice of the last tests.
  chosen : Bytes → Bytes
  chosen t =
      if str_left env t (bytes "SERVER_ERROR")
      then t
      else if str_left env t (bytes "NOT_FOUND")
      then bytes "Key does not exist or the Queue specified is not a valid one"
      else bytes "Received malformed response"

  chosen_lem : (t : Bytes) → FindsFirst env.memnstr → chosen t ≡ error_text_of t
  unfolding chosen error_text_of
  chosen_lem t f =
      rw (str_left_lem env t (bytes "SERVER_ERROR") f, str_left_lem env t (bytes "NOT_FOUND") f)
        refl

  -- The error that `mmc_server_received_error` leaves for a whole line: the line, for a server
  -- error, a text of its own for NOT_FOUND, and "Received malformed response" for all others, those
  -- that begin with "ERROR" and "CLIENT_ERROR" included. `php_memnstr` finds the first occurrence.
  pub received_error_lem :
      (i : ℕ) (w : World)
      → FindsFirst env.memnstr
      → length (w.servers i).inbuf < 4095
      → ((received_error env i (length (w.servers i).inbuf) w).servers i).error
        ≡ some (error_text_of (w.servers i).inbuf)
  unfolding received_error chosen
  received_error_lem i w f h =
      let len = length (w.servers i).inbuf in
      let b1 = str_left env (w.servers i).inbuf (bytes "ERROR") in
      let w1 = error_if env b1 i len w in
      let b2 = str_left env (w1.servers i).inbuf (bytes "CLIENT_ERROR") in
      let w2 = error_if env b2 i len w1 in
      let e1 : (w1.servers i).inbuf ≡ (w.servers i).inbuf = if-inbuf b1 i len w refl h in
      let e2 : (w2.servers i).inbuf ≡ (w.servers i).inbuf =
        if-inbuf b2 i len w1 (ap length (sym e1)) h ∙ e1 in
      last-error _ _ i len w2 (ap length (sym e2)) h
      ∙ ap some (ap chosen e2 ∙ chosen_lem (w.servers i).inbuf f)

  stored_iff :
      (b : Bool) (d : Done) (o : Option Done)
      → d.result ≡ pos 1
      → NoSuccess o
      → (result_of (if b then some d else o) ≡ pos 1) ↔ (b ≡ true)
  unfolding result_of
  stored_iff true d o h k = (λ e. refl, λ e. h)
  stored_iff false d o h k = (λ e. elim (k.no e) [ ], λ e. cc e)

  refusal-NoSuccess : (text : Bytes) → NoSuccess (store_refusal env text)
  unfolding store_refusal
  refusal-NoSuccess text = refused_if (str_left env text (bytes "NOT_STORED")) mc_not_stored _ (
      refused_if (str_left env text (bytes "NOT_FOUND")) mc_not_found _ (
        refused_if (str_left env text (bytes "EXISTS")) mc_exists _ (
          refused_if (mmc_str env text (bytes "temporary failure")) mc_tmp_fail _ (
            refused_if
              (str_left env text (bytes "SERVER_ERROR out of memory")
                || str_left env text (bytes "SERVER_ERROR object too large"))
              mc_server_mem_error _
              (refused_if (str_left env text (bytes "LOCK_ERROR")) mc_lock_error _ (
                not_stored_if (str_left env text (bytes "SERVER_ERROR checksum failed"))
                  (failure (negsuc 1)) none (failed_no_success 1) none-NoSuccess))))))

  -- A store is reported as done, by 1, for the lines that begin with "STORED" and no others.
  -- `php_memnstr` finds the first occurrence.
  pub store_reply-stored :
      (text : Bytes)
      → FindsFirst env.memnstr
      → (result_of (store_reply env text) ≡ pos 1) ↔ (starts_with (bytes "STORED") text ≡ true)
  unfolding store_reply stored_reply
  store_reply-stored text f =
      subst (λ (b : Bool). (result_of (store_reply env text) ≡ pos 1) ↔ (b ≡ true))
        (str_left_lem env text (bytes "STORED") f)
        (stored_iff (str_left env text (bytes "STORED")) (stored_reply env text)
          (store_refusal env text) refl (refusal-NoSuccess text))
