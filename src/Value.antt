-- ===== src/Value.antt =====
-- The reading of a value: `mmc_read_value` of memcache.cpp. The notices are left out.
pub mod Check
pub mod Scan
pub mod Hex
pub mod Sent
pub mod Body
pub mod Arrives
pub mod Checks
pub mod Round
pub mod Whole
pub mod Reply
pub mod Stored
pub mod Lost
mod Tests
use php_pecl_memcache_zynga.Prelude.{
  ℕ, zero, suc, ◌+◌, ◌-◌, Bool, true, false, List, [], ◌∷◌, ◌++◌, Option, none, some, ◌==◌,
  if◌then◌else◌, length, take,
}
use php_pecl_memcache_zynga.Prelude.Int.{ℤ, pos, negsuc}
use php_pecl_memcache_zynga.Prelude.Bytes.{Bytes, bytes}
use php_pecl_memcache_zynga.Net.{Server, Env, World, tick, str_left}
use php_pecl_memcache_zynga.Server.{server_seterror, stream_of, readline}
use php_pecl_memcache_zynga.Header.{Fields, parse_response}
use Check.{ValueEnv, ValueCheck, accepted, refused, mismatch, check_value}
use Body.{read_body}

-- What a read gives: its result, the log's status code where it sets one, the value, and the header.
pub record ValueRead : Type 0 where
  pub result : ℤ
  pub code : Option ℕ
  pub value : Option Bytes
  pub header : Option Fields

abbrev pub to_nat : ℤ → ℕ
to_nat (pos n) = n
to_nat (negsuc n) = 0

module _ (e : ValueEnv) where
  unfoldable pub with_error : Option Bytes → ℕ → World → World
  unfolding server_seterror
  with_error none i w = w
  with_error (some text) i w = server_seterror i text 0 w

  unfoldable pub checked_result : Fields → ValueCheck → ℕ → World → ValueRead × World
  unfolding with_error
  checked_result f (accepted v) i w =
      (record { result = pos 1; code = none; value = some v; header = some f }, w)
  checked_result f (refused code error) i w = (
    record { result = negsuc 1; code = code; value = none; header = some f },
    with_error error i w,
  )
  checked_result f (mismatch v code) i w =
      (record { result = negsuc 2; code = code; value = some v; header = some f }, w)

  -- Behind the body; `none` where the stream gives no more bytes.
  unfoldable pub read_checked : Fields → ℕ → Option Bytes × World → ValueRead × World
  unfolding checked_result check_value server_seterror
  read_checked f i (none, w) = (
    record { result = negsuc 0; code = some 125; value = none; header = some f },
    server_seterror i (bytes "Failed reading value response body") 0 w,
  )
  read_checked f i (some text, w) =
      checked_result f
        (check_value e (w.servers i).di_algo_in_use (to_nat f.flags) f.chksum
          (take (to_nat f.value_len) text))
        i w

  unfoldable pub read_parsed : ℕ → Option Fields × World → ValueRead × World
  unfolding read_checked read_body
  read_parsed i (none, w) =
      (record { result = negsuc 0; code = some 127; value = none; header = none }, w)
  read_parsed i (some f, w) = read_checked f i (read_body e.env (to_nat f.value_len + 2) [] w)

  unfoldable pub read_header : Bool → Bool → Bool → ℕ → World → ValueRead × World
  unfolding read_parsed parse_response
  read_header true in_multi with_cas i w = (
    record {
      result = pos 0;
      code = if in_multi then none else some 0x13;
      value = none;
      header = none;
    },
    w,
  )
  read_header false in_multi with_cas i w =
      read_parsed i (parse_response e.env with_cas i (w.servers i).inbuf w)

  unfoldable pub read_line : Bool → Bool → ℕ → Option ℕ × World → ValueRead × World
  unfolding read_header str_left
  read_line in_multi with_cas i (none, w) =
      (record { result = negsuc 0; code = some 105; value = none; header = none }, w)
  read_line in_multi with_cas i (some len, w) =
      read_header (str_left e.env (w.servers i).inbuf (bytes "END")) in_multi with_cas i w

  -- `mmc_read_value`
  unfoldable pub mmc_read_value : Bool → Bool → ℕ → World → ValueRead × World
  unfolding read_line readline
  mmc_read_value in_multi with_cas i w = read_line in_multi with_cas i (readline e.env i w)
