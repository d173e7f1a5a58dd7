-- ===== src/Server/Ready.antt =====
-- What `mmc_open` promises to its callers.
use php_pecl_memcache_zynga.Prelude.{
  ℕ, ◌≡◌, refl, sym, ap, ◌⊎◌, inl, inr, Bool, true, false, Option, none, some,
}
use mathlib.Core.Path.{subst}
use php_pecl_memcache_zynga.Prelude.Int.{ℤ, pos, negsuc}
use php_pecl_memcache_zynga.Prelude.Bytes.{Bytes, bytes}
use php_pecl_memcache_zynga.Net.{
  Status, failed_status, disconnected, unknown, connected, Server, Env, World, tick, update,
  servers-update_self,
}
use php_pecl_memcache_zynga.Server.{stream_of, readline, sendcmd}
use php_pecl_memcache_zynga.Server.Open.{
  open_now, mmc_open, open_by_status, get_version, version_answer, read_version, malformed_version,
  version_text, known_version, known_open, retry_due, due_at, retry_failed,
}
use php_pecl_memcache_zynga.Server.Live.{
  HasStream, LiveStatus, AllLive, AllLive-update, AllLive-same,
}
use php_pecl_memcache_zynga.Server.Failure.{
  Ends, Ends->>=, Ends-map, Kept, Kept-trans, readline-Kept, sendcmd-Kept, seterror-Kept,
}
use php_pecl_memcache_zynga.Server.Connect.{
  Opened, is_open, is_failed, open_now-Opened, open_now-AllLive,
}

not_false : true ≡ false → ⊥
not_false q = cc q

-- The state that each result of `mmc_open` goes with.
abbrev pub StatusAfter : Bool → Bool → Status → Type 0
StatusAfter true force s = (s ≡ connected) ⊎ ((s ≡ unknown) × (force ≡ false))
StatusAfter false force s = s ≡ failed_status

pub record Answered (i : ℕ) (force b : Bool) (w' : World) : Type 0 where
  pub status_after : StatusAfter b force (w'.servers i).status
  pub live : AllLive w'

module _ (env : Env) where
  text-Kept :
      (i len : ℕ) (w : World)
      → AllLive w
      → (b : Bool) → Ends (λ _. Kept i w) (version_text env b i len w)
  unfolding version_text malformed_version
  text-Kept i len w l true = record {
    live = l;
    same_proxy = refl;
    same_stream = refl;
    same_life = refl;
  }
  text-Kept i len w l false = seterror-Kept i _ 0 w l

  read_version-Kept :
      (i : ℕ) (len : Option ℕ) (w : World)
      → AllLive w
      → Ends (λ _. Kept i w) (read_version env i len w)
  unfolding read_version
  read_version-Kept i none w l = record {
    live = l;
    same_proxy = refl;
    same_stream = refl;
    same_life = refl;
  }
  read_version-Kept i (some len) w l = text-Kept i len w l _

  version_answer-Kept :
      (i : ℕ) (b : Bool) (w w' : World)
      → Kept i w w'
      → Ends (λ _. Kept i w) (version_answer env i b w')
  unfolding version_answer
  version_answer-Kept i false w w' k = k
  version_answer-Kept i true w w' k =
      let r : Option ℕ × World = readline env i w' in
      let k' = readline-Kept env i w' k.live in
      Ends-map (λ _. Kept i r.1) (λ _. Kept i w) (read_version env i r.0 r.1)
        (λ v w1. Kept-trans i w r.1 w1 (Kept-trans i w w' r.1 k k'))
        (read_version-Kept i r.0 r.1 k'.live)

  pub get_version-Kept :
      (i : ℕ) (w : World)
      → AllLive w
      → HasStream (stream_of i w)
      → Ends (λ _. Kept i w) (get_version env i w)
  unfolding get_version
  get_version-Kept i w l h =
      Ends->>= (λ _. Kept i w) (λ _. Kept i w) (sendcmd env i (bytes "version") w)
        (version_answer env i) (λ b w' k. version_answer-Kept i b w w' k)
        (sendcmd-Kept env i (bytes "version") w l h)

  module _ (retries i : ℕ) (force : Bool) where
    opened-Answered :
        (b : Bool) (w : World) → Opened (w.servers i) b → AllLive w → Answered i force b w
    opened-Answered b w (is_open st s t g e) l = record { status_after = inl t; live = l }
    opened-Answered b w (is_failed s t) l = record { status_after = t; live = l }

    open_now-Answered :
        (w : World)
        → AllLive w
        → let r : Bool × World = open_now env retries i w in Answered i force r.0 r.1
    open_now-Answered w l =
        opened-Answered _ _ (open_now-Opened env retries i w) (open_now-AllLive env retries i w l)

    connected-Answered :
        (w : World)
        → AllLive w
        → HasStream (w.servers i).stream
        → Answered i force true (update i (record (w.servers i) { status = connected }) w)
    connected-Answered w l h = record {
      status_after = inl (
          ap (λ (s : Server). s.status)
            (servers-update_self i (record (w.servers i) { status = connected }) w));
      live = AllLive-update i _ w h l;
    }

    known_open-Answered :
        (b : Bool) (w : World)
        → Opened (w.servers i) b
        → AllLive w
        → Ends (λ r. Answered i force r) (known_open env retries i (b, w))
    unfolding known_open
    known_open-Answered true w (is_open st s t g e) l =
        connected-Answered w l (subst HasStream (sym s) tt)
    known_open-Answered false w o l = opened-Answered false w o l

    known_version-Answered :
        (v : Option Bytes) (w : World)
        → AllLive w
        → HasStream (w.servers i).stream
        → Ends (λ b. Answered i force b) (known_version env retries i v w)
    unfolding known_version
    known_version-Answered (some v) w l h = connected-Answered w l h
    known_version-Answered none w l h =
        known_open-Answered _ _ (open_now-Opened env retries i w)
          (open_now-AllLive env retries i w l)

    retry-Answered :
        (b : Bool) (w : World)
        → (w.servers i).status ≡ failed_status
        → AllLive w
        → Ends (λ r. Answered i force r) (retry_failed env retries i (b, w))
    unfolding retry_failed
    retry-Answered false w e l = record { status_after = e; live = l }
    retry-Answered true w e l = open_now-Answered w l

    due-Answered :
        (r : ℤ) (w : World)
        → (w.servers i).status ≡ failed_status
        → AllLive w
        → Ends
            (λ b. Answered i force b)
            (retry_failed env retries i (due_at env retries r (w.servers i).failed w))
    unfolding due_at
    due-Answered (negsuc n) w e l = retry-Answered false w e l
    due-Answered (pos n) w e l = retry-Answered _ (tick w) e (AllLive-same w (tick w) refl l)

  -- `mmc_open` in a live store, not forced or of a server that is not behind a proxy: no NULL stream
  -- is used; it answers true with a connected server (or one in the unknown state, when it may not
  -- check) and false with a failed one; and the store is live again.
  pub mmc_open-Answered :
      (retries i : ℕ) (force : Bool) (w : World)
      → (force ≡ false) ⊎ ((w.servers i).proxy ≡ none)
      → AllLive w
      → Ends (λ b. Answered i force b) (mmc_open env retries i force w)
  unfolding mmc_open open_by_status retry_due
  mmc_open-Answered retries i force w p l = go force (w.servers i).status p refl (l.at i)
    where
      direct :
          (w.servers i).proxy ≡ none → HasStream (w.servers i).stream → HasStream (stream_of i w)
      direct p h =
          subst
            (λ (o : Option ℕ).
              HasStream (elim o [ some q ↦ (w.servers q).stream | none ↦ (w.servers i).stream ]))
            (sym p) h

      go :
          (f : Bool) (s : Status)
          → (f ≡ false) ⊎ ((w.servers i).proxy ≡ none)
          → (w.servers i).status ≡ s
          → LiveStatus s (w.servers i).stream
          → Ends (λ b. Answered i f b) (open_by_status env retries s f i w)
      go f disconnected q e h = open_now-Answered retries i f w l
      go f connected q e h = record { status_after = inl e; live = l }
      go false unknown q e h = record { status_after = inr (e, refl); live = l }
      go true unknown (inl q) e h = elim (not_false q) [ ]
      go true unknown (inr q) e h =
          Ends->>= (λ _. Kept i w) (λ b. Answered i true b) (get_version env i w)
            (known_version env retries i)
            (λ v w' k.
              known_version-Answered retries i true v w' k.live
                (subst HasStream (sym k.same_stream) h))
            (get_version-Kept i w l (direct q h))
      go f failed_status q e h = due-Answered retries i f (w.servers i).retry_interval w e l
