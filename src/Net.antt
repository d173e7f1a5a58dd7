-- ===== src/Net.antt =====
-- What the client calls outside itself (php streams, the clock), and the store of its servers. An
-- `mmc_t *` is a number, its address; the answers of the outside come by the count of calls so far.
pub mod Search
use php_pecl_memcache_zynga.Prelude.{
  ℕ, suc, ◌≡◌, refl, ◌≢◌, Bool, true, false, ◌↔◌, ◌⊎◌, inl, inr, Bool-cases, zero, List, ◌∷◌,
  Option, none, some, arith, ◌==◌, if◌then◌else◌,
}
use php_pecl_memcache_zynga.Prelude.Int.{ℤ}
use php_pecl_memcache_zynga.Prelude.Bytes.{Bytes, starts_with, has_infix}

-- MMC_STATUS_FAILED 0, DISCONNECTED 1, UNKNOWN 2, CONNECTED 3
pub data Status : Type 0 where
  failed_status disconnected unknown connected : Status

-- `mmc_t`. A `php_stream *` is a number, `none` is NULL; `proxy` is the address of another server.
pub record Server : Type 0 where
  pub stream : Option ℕ
  pub inbuf : Bytes
  pub host : Bytes
  pub proxy_str : Bytes
  pub port : ℕ
  pub timeout : ℕ
  pub timeoutms : ℕ
  pub connect_timeoutms : ℕ
  pub failed : ℕ
  pub retry_interval : ℤ
  pub persistent : Bool
  pub status : Status
  pub error : Option Bytes
  pub errnum : ℕ
  pub failure_callback : Bool
  pub in_free : Bool
  pub got_options : Bool
  pub data_integrity_algo : ℕ
  pub di_algo_in_use : ℕ
  pub proxy : Option ℕ

-- What `php_stream_xport_create` gives.
pub record Answer : Type 0 where
  pub opened : Option ℕ
  pub errstr : Option Bytes
  pub err : ℕ

-- The outside: each call is answered by its number. `accept n len` is what `php_stream_write` of
-- `len` bytes returns, `line n` what `php_stream_get_line` gives, NULL for a failure,
-- `read n len` what `php_stream_read` of `len` bytes gives;
-- `memnstr` is PHP's text search.
pub record Env : Type 0 where
  pub connect : ℕ → Answer
  pub accept : ℕ → ℕ → ℕ
  pub line : ℕ → Option Bytes
  pub read : ℕ → ℕ → Bytes
  pub time : ℕ → ℕ
  pub memnstr : Bytes → Bytes → Option ℕ

-- What is relied on of `php_memnstr`, which searches a needle in a text: it finds the first
-- occurrence, or NULL where there is none.
pub record FindsFirst (memnstr : Bytes → Bytes → Option ℕ) : Type 0 where
  pub at_start :
      (needle text : Bytes) → (memnstr needle text ≡ some 0) ↔ (starts_with needle text ≡ true)
  pub absent :
      (needle text : Bytes) → (memnstr needle text ≡ none) ↔ (has_infix needle text ≡ false)

-- What the client has done to the outside, the last first.
pub data Event : Type 0 where
  closed : ℕ → Event
  wrote : ℕ → Bytes → Event
  called_back : ℕ → Event
  noticed : ℕ → Event

pub record World : Type 0 where
  pub servers : ℕ → Server
  pub calls : ℕ
  pub events : List Event

-- `*mmc = v`
unfoldable pub update : ℕ → Server → World → World
update i v w = record w { servers = λ j. if j == i then v else w.servers j }

unfoldable pub emit : Event → World → World
emit e w = record w { events = e ∷ w.events }

-- One more call to the outside.
abbrev pub tick : World → World
tick w = record w { calls = suc w.calls }

pub servers-update_self : (i : ℕ) (v : Server) (w : World) → (update i v w).servers i ≡ v
unfolding update
servers-update_self i v w = ground arith

pub servers-update_ne :
    (i j : ℕ) (v : Server) (w : World) → j ≢ i → (update i v w).servers j ≡ w.servers j
unfolding update
servers-update_ne i j v w h = ground arith

abbrev at_zero : Option ℕ → Bool
at_zero none = false
at_zero (some n) = n == 0

abbrev is_found : Option ℕ → Bool
is_found none = false
is_found (some n) = true

-- `mmc_str_left`: the text begins with the needle; `mmc_str`: it holds the needle
unfoldable pub str_left : Env → Bytes → Bytes → Bool
str_left env text needle = at_zero (env.memnstr needle text)

unfoldable pub mmc_str : Env → Bytes → Bytes → Bool
mmc_str env text needle = is_found (env.memnstr needle text)

pub str_left_lem :
    (env : Env) (text needle : Bytes)
    → FindsFirst env.memnstr
    → str_left env text needle ≡ starts_with needle text
unfolding str_left
str_left_lem env text needle h =
    go (env.memnstr needle text) refl (Bool-cases (starts_with needle text))
  where
    go :
        (o : Option ℕ)
        → env.memnstr needle text ≡ o
        → (starts_with needle text ≡ true) ⊎ (starts_with needle text ≡ false)
        → at_zero (env.memnstr needle text) ≡ starts_with needle text
    go o e (inl t) = rw ((h.at_start needle text).1 t, t)
    go none e (inr f) = rw (e, f)
    go (some zero) e (inr f) = cc ((h.at_start needle text).0 e)
    go (some (suc n)) e (inr f) = rw (e, f) (ground arith)

pub mmc_str_lem :
    (env : Env) (text needle : Bytes)
    → FindsFirst env.memnstr
    → mmc_str env text needle ≡ has_infix needle text
unfolding mmc_str
mmc_str_lem env text needle h =
    go (env.memnstr needle text) refl (Bool-cases (has_infix needle text))
  where
    go :
        (o : Option ℕ)
        → env.memnstr needle text ≡ o
        → (has_infix needle text ≡ true) ⊎ (has_infix needle text ≡ false)
        → is_found (env.memnstr needle text) ≡ has_infix needle text
    go o e (inr f) = rw ((h.absent needle text).1 f, f)
    go none e (inl t) = cc ((h.absent needle text).0 e)
    go (some n) e (inl t) = rw (e, t)
