-- ===== src/Header.antt =====
-- The header line of a value: `mmc_parse_response` of memcache.cpp.
pub mod Decimal
pub mod Words
pub mod Line
pub mod Round
mod Tests
use php_pecl_memcache_zynga.Prelude.{
  ℕ, zero, suc, ◌+◌, ◌-◌, ◌<◌, Bool, true, false, not, ◌||◌, List, [], ◌∷◌, Option, none, some, ltb,
  leb, ◌==◌, if◌then◌else◌, length, get_or, take, drop,
}
use php_pecl_memcache_zynga.Prelude.Int.{ℤ, pos, negsuc, ltb_ℤ}
use php_pecl_memcache_zynga.Prelude.Bytes.{Bytes, bytes, starts_with}
use php_pecl_memcache_zynga.Prelude.Numbers.{atoi, strtoul}
use php_pecl_memcache_zynga.Net.{World, Env}
use php_pecl_memcache_zynga.Server.{server_seterror}
use php_pecl_memcache_zynga.Command.{received_error}

-- `spaces`: where the first `n` blanks stand, from position `i` on
unfoldable pub spaces_from : ℕ → ℕ → Bytes → List ℕ
spaces_from zero i cs = []
spaces_from (suc n) i [] = []
spaces_from (suc n) i (c ∷ cs) =
    let found = i ∷ spaces_from n (i + 1) cs in
    let not_yet = spaces_from (suc n) (i + 1) cs in if c == 32 then found else not_yet

-- The out-parameters: the key, the numbers, the text from the checksum on, and the cas.
pub record Fields : Type 0 where
  pub key : Bytes
  pub flags : ℤ
  pub value_len : ℤ
  pub chksum : Option Bytes
  pub cas : Option ℤ

pub data Parsed : Type 0 where
  parsed : Fields → Parsed
  empty_response : Parsed
  no_value : Parsed
  malformed : Parsed

-- The cas stands behind the last blank. A caller that does not ask for the key passes over it.
unfoldable pub fields_at : Bytes → Bool → Bool → List ℕ → Fields
unfolding atoi strtoul
fields_at response checked with_cas spaces = record {
  key = take (get_or spaces 1 0 - get_or spaces 0 0 - 1) (drop (get_or spaces 0 0 + 1) response);
  flags = atoi (drop (get_or spaces 1 0) response);
  value_len = atoi (drop (get_or spaces 2 0) response);
  chksum = if checked then some (drop (get_or spaces 3 0 + 1) response) else none;
  cas =
      if with_cas
      then some (pos (strtoul (drop (get_or spaces (if checked then 4 else 3) 0) response)))
      else none;
}

unfoldable pub checked_fields : Fields → Parsed
checked_fields f =
    if ltb_ℤ f.flags (pos 0) || ltb_ℤ f.value_len (pos 0) then malformed else parsed f

abbrev pub blanks : Bool → Bool → ℕ
blanks checked with_cas = (if with_cas then 4 else 3) + (if checked then 1 else 0)

unfoldable pub parse_fields : Bytes → Bool → Bool → List ℕ → Parsed
unfolding fields_at checked_fields
parse_fields response checked with_cas spaces =
    if ltb (length spaces) (blanks checked with_cas)
    then malformed
    else checked_fields (fields_at response checked with_cas spaces)

-- `mmc_parse_response` on a whole line, where the checks come to; `checked` where a checksum is in
-- use on the connection, `with_cas` where the caller asks for the cas
unfoldable pub parse_header : Bool → Bool → Bytes → Parsed
unfolding parse_fields spaces_from
parse_header checked with_cas response =
    if length response == 0
    then empty_response
    else if not (starts_with (bytes "VALUE ") response)
    then no_value
    else parse_fields response checked with_cas (spaces_from (blanks checked with_cas) 0 response)

module _ (env : Env) where
  unfoldable pub error_of_header : Parsed → ℕ → ℕ → World → Option Fields × World
  unfolding received_error server_seterror
  error_of_header (parsed f) i response_len w = (some f, w)
  error_of_header empty_response i response_len w =
      (none, server_seterror i (bytes "Empty response") 0 w)
  error_of_header no_value i response_len w = (none, received_error env i response_len w)
  error_of_header malformed i response_len w =
      (none, server_seterror i (bytes "Malformed VALUE header") 0 w)

  -- `mmc_parse_response` with the error it leaves; `none` for -1
  unfoldable pub parse_response : Bool → ℕ → Bytes → World → Option Fields × World
  unfolding error_of_header parse_header
  parse_response with_cas i response w =
      error_of_header (parse_header (not ((w.servers i).di_algo_in_use == 0)) with_cas response) i
        (length response) w
