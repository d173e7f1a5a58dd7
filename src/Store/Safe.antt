-- ===== src/Store/Safe.antt =====
-- Storing in a live store, with buffers that no round frees.
use php_pecl_memcache_zynga.Prelude.{
  ℕ, ◌≡◌, refl, sym, ◌&&◌, ◌||◌, Bool, true, false, Option, none, some, ◌==◌, if◌then◌else◌, length,
  arith,
}
use mathlib.Core.Path.{subst}
use php_pecl_memcache_zynga.Prelude.Int.{ℤ}
use php_pecl_memcache_zynga.Prelude.Bytes.{Bytes}
use php_pecl_memcache_zynga.Net.{World}
use php_pecl_memcache_zynga.Server.Failure.{Ends}
use php_pecl_memcache_zynga.Compress.{has_flag}
use php_pecl_memcache_zynga.Pool.Options.{Sendable}
use php_pecl_memcache_zynga.Store.Request.{store_request, lookup_cas, remove_cas}
use php_pecl_memcache_zynga.Store.Pack.{
  StoreEnv, Packed, any_compressed, choose_flags, is_concatenation, pack, complete_checksum,
}
use php_pecl_memcache_zynga.Store.{
  Buffer, held, freed, Item, Texts, key_left, shard_after, take_cas, cas_key, begins_s, with_packed,
  send_packed, send_value,
}
use php_pecl_memcache_zynga.Store.Intact.{
  ShortKey, ShortShard, IsHeld, Intact, After, retries-After,
}

pub key_left-short : (b : Buffer) → ShortKey b → key_left b ≡ b
key_left-short freed h = elim h [ ]
key_left-short (held key) h = ground arith

pub shard_after-short : (o : Option Buffer) → ShortShard o → shard_after o ≡ o
shard_after-short none h = refl
shard_after-short (some freed) h = elim h [ ]
shard_after-short (some (held key)) h = ground arith

-- Without compression the flags stay plain.
chosen_plain :
    (e : StoreEnv) (b : Bool) (len flags : ℕ)
    → any_compressed flags ≡ false
    → any_compressed (choose_flags e b 0 len flags) ≡ false
unfolding choose_flags
chosen_plain e true len flags h = refl
chosen_plain e false len flags h = h

-- What is sent of a value that is not compressed.
record Plain (p : Packed) : Type 0 where
  not_data : p.is_data ≡ false
  plain_flags : any_compressed p.packed_flags ≡ false

complete-Plain :
    (e : StoreEnv) (a b : Bool) (p : Packed) → Plain p → Plain (complete_checksum e a b p)
unfolding complete_checksum
complete-Plain e a b p h = go (a && p.packed_uncrc32 == 0) _
  where
    go : (c : Bool) (v : ℕ) → Plain (if c then record p { packed_uncrc32 = v } else p)
    go true v = record { not_data = h.not_data; plain_flags = h.plain_flags }
    go false v = h

module _ {S : Type 0} (Valid : S → Type 0) where
  packed-Intact :
      (algo : ℕ) (p : Packed) (item : Item S)
      → Plain p
      → Intact Valid item
      → Intact Valid (with_packed algo p item)
  packed-Intact algo p item h t = record {
    valid = t.valid;
    direct = t.direct;
    no_threshold = t.no_threshold;
    plain = h.plain_flags;
    short_key = t.short_key;
    short_shard = t.short_shard;
    value_held =
        subst (λ (b : Bool). IsHeld (if b then freed else item.value)) (sym h.not_data)
          t.value_held;
  }

  take_cas-Intact :
      (b : Bool) (x : Texts) (item : Item S) → Intact Valid item → Intact Valid (take_cas b x item)
  unfolding take_cas
  take_cas-Intact false x item t = t
  take_cas-Intact true x item t = go (lookup_cas (cas_key x) item.pool.cas_array)
    where
      go :
          (o : Option ℕ)
          → Intact Valid (elim o [
            | none ↦ item
            | some v ↦ record item {
              cas = v;
              pool = record (item.pool) { cas_array = remove_cas x.key item.pool.cas_array };
            }
          ])
      go none = t
      go (some v) = record {
        valid = t.valid;
        direct = t.direct;
        no_threshold = t.no_threshold;
        plain = t.plain;
        short_key = t.short_key;
        short_shard = t.short_shard;
        value_held = t.value_held;
      }

  kept_keys-Intact :
      (item0 item : Item S)
      → Intact Valid item0
      → Intact Valid item
      → Intact Valid
          (record item { key = key_left item0.key; shard_key = shard_after item0.shard_key })
  kept_keys-Intact item0 item t0 t = record {
    valid = t.valid;
    direct = t.direct;
    no_threshold = t.no_threshold;
    plain = t.plain;
    short_key = subst ShortKey (sym (key_left-short item0.key t0.short_key)) t0.short_key;
    short_shard =
        subst ShortShard (sym (shard_after-short item0.shard_key t0.short_shard)) t0.short_shard;
    value_held = t.value_held;
  }

  module _ (e : StoreEnv) (command : Bytes) (expire : ℤ) where
    send_packed-After :
        (x : Texts) (item : Item S) (i : ℕ) (p : Packed) (w : World)
        → Plain p
        → Intact Valid item
        → Sendable i w
        → Ends (After Valid) (send_packed e command expire x item i (some p) w)
    unfolding send_packed
    send_packed-After x item i p w h t s =
        let algo : ℕ = (w.servers i).di_algo_in_use in
        let q : Packed =
          complete_checksum e (has_flag 2 algo) (has_flag 2 algo || has_flag 1 algo) p in
        let item' : Item S = take_cas (begins_s command) x (with_packed algo q item) in
        retries-After Valid e item'.retries_left
          (record item' { key = key_left item.key; shard_key = shard_after item.shard_key })
          (store_request command x.key item'.flags expire item'.crc_in_hdr item'.cas q.text) i w
          (kept_keys-Intact item item' t (
            take_cas-Intact (begins_s command) x (with_packed algo q item)
              (packed-Intact algo q item (complete-Plain e _ _ p h) t)))
          s

    pack-After :
        (x : Texts) (item : Item S) (i flags : ℕ) (b a c : Bool) (w : World)
        → b ≡ false
        → any_compressed flags ≡ false
        → Intact Valid item
        → Sendable i w
        → Ends (After Valid) (
            send_packed e command expire x item i
              (pack e b item.pool.saves_enough a c x.value flags item.crc32 item.uncrc32)
              w)
    unfolding pack
    pack-After x item i flags true a c w q h t s = absurd (ground arith)
    pack-After x item i flags false a c w q h t s =
        send_packed-After x item i _ w (record { not_data = refl; plain_flags = h }) t s

    pub send_value-After :
        (item : Item S) (i : ℕ) (o : Option Texts) (w : World)
        → (o ≡ none → ⊥)
        → Intact Valid item
        → Sendable i w
        → Ends (After Valid) (send_value e command expire item i o w)
    unfolding send_value
    send_value-After item i none w ne t s = elim (ne refl) [ ]
    send_value-After item i (some x) w ne t s =
        let flags : ℕ =
          choose_flags e (is_concatenation command) item.pool.compress_threshold (length x.value)
            item.flags in
        let plain : any_compressed flags ≡ false =
          subst
            (λ (n : ℕ).
              any_compressed
                (choose_flags e (is_concatenation command) n (length x.value) item.flags)
              ≡ false)
            (sym t.no_threshold)
            (chosen_plain e (is_concatenation command) (length x.value) item.flags t.plain) in
        pack-After x item i flags _ _ _ w plain plain t s
