-- ===== src/FakeVault/Keys.antt =====
-- store.go: vaultKey, and the key that it keeps in memory.
use text.Mathlib.TextPositions.{eq_refl}
use podplane.Base.{String, [], ◌∷◌, ok, ◌≡◌, ◌≢◌, refl, arith, length}
use podplane.Base.Assoc.{Assoc, insert, lookup-insert}
use podplane.Base.Exec.{Exec, ◌>>=◌, pure}
use podplane.Base.Exec.Keeps.{lift-bind, gets-bind}
use podplane.FakeVault.Paths.{clean_cluster_id, vault_key_name}
use podplane.FakeVault.Types.{Bytes, FileStore, Codec, World}
use podplane.FakeVault.Store.{
  vault_key_size, ensure_key, fetch_key, vault_key, create_key, load_key, keyring_key, cached_or,
  bytes_at,
}

-- rand.Read fills the whole buffer.
abbrev pub FillsKey : World → Type 0
FillsKey w = (key : Bytes) → w.random_key ≡ ok key → length key ≡ vault_key_size

-- rand.Read fills the nonce, of AES-GCM's standard size.
abbrev pub FillsNonce : World → Type 0
FillsNonce w = (nonce : Bytes) → w.random_nonce ≡ ok nonce → length nonce ≡ 12

-- The store holds `key` for the cluster in memory.
pub record Holds (s : FileStore) (id : String) (key : Bytes) : Type 0 where
  pub cached : bytes_at id s.keys ≡ key
  pub nonempty : key ≢ []

bytes_at-insert :
    (id : String) (key : Bytes) (m : Assoc Bytes) → bytes_at id (insert id key m) ≡ key
bytes_at-insert id key m = ground (arith, lookup-insert id id key m, eq_refl id)

module _ (c : Codec) (w : World) where
  create_key-Holds :
      (id : String) (s : FileStore) (key : Bytes)
      → FillsKey w
      → (create_key c w id s).0 ≡ ok key
      → Holds (create_key c w id s).1 id key
  unfolding create_key ◌>>=◌
  create_key-Holds id s key fills h = ground (arith, bytes_at-insert id key s.keys, fills key)

  load_key-Holds :
      (id : String) (bytes : Bytes) (s : FileStore) (key : Bytes)
      → (load_key c w id bytes s).0 ≡ ok key
      → Holds (load_key c w id bytes s).1 id key
  unfolding load_key ◌>>=◌
  load_key-Holds id bytes s key h = ground (arith, bytes_at-insert id key s.keys)

  keyring_key-Holds :
      (id : String) (bytes : Bytes) (s : FileStore) (key : Bytes)
      → FillsKey w
      → (keyring_key c w id bytes s).0 ≡ ok key
      → Holds (keyring_key c w id bytes s).1 id key
  unfolding keyring_key
  keyring_key-Holds id [] s key fills h = create_key-Holds id s key fills h
  keyring_key-Holds id (b ∷ bytes) s key fills h = load_key-Holds id (b ∷ bytes) s key h

  cached_or-Holds :
      (id : String) (cached : Bytes) (rest : Exec FileStore Bytes) (s : FileStore) (key : Bytes)
      → bytes_at id s.keys ≡ cached
      → ((rest s).0 ≡ ok key → Holds (rest s).1 id key)
      → (cached_or cached rest s).0 ≡ ok key
      → Holds (cached_or cached rest s).1 id key
  unfolding cached_or pure
  cached_or-Holds id [] rest s key e k h = k h
  cached_or-Holds id (b ∷ bytes) rest s key e k h = record {
    cached = ground arith;
    nonempty = ground arith;
  }

  fetch_key-Holds :
      (id : String) (s : FileStore) (key : Bytes)
      → FillsKey w
      → (fetch_key c w id s).0 ≡ ok key
      → Holds (fetch_key c w id s).1 id key
  unfolding fetch_key ◌>>=◌
  fetch_key-Holds id s key fills h =
      let bytes = bytes_at (vault_key_name id) s.keyring in
      ground (arith, keyring_key-Holds id bytes s key fills)

  ensure_key-Holds :
      (id : String) (s : FileStore) (key : Bytes)
      → FillsKey w
      → (ensure_key c w id s).0 ≡ ok key
      → Holds (ensure_key c w id s).1 id key
  unfolding ensure_key
  ensure_key-Holds id s key fills h = rw gets-bind (
      cached_or-Holds id (bytes_at id s.keys) (fetch_key c w id) s key refl
        (fetch_key-Holds id s key fills) (rw gets-bind at h))

  pub vault_key-Holds :
      (given id : String) (s : FileStore) (key : Bytes)
      → FillsKey w
      → clean_cluster_id given ≡ ok id
      → (vault_key c w given s).0 ≡ ok key
      → Holds (vault_key c w given s).1 id key
  unfolding vault_key
  vault_key-Holds given id s key fills clean h =
      let run = lift-bind (clean_cluster_id given) id (ensure_key c w) s clean in
      rw run (ensure_key-Holds id s key fills (rw run at h))

  cached_or_again :
      (cached : Bytes) (rest : Exec FileStore Bytes) (s : FileStore)
      → cached ≢ []
      → cached_or cached rest s ≡ (ok cached, s)
  unfolding cached_or pure
  cached_or_again [] rest s h = absurd (h refl)
  cached_or_again (b ∷ key) rest s h = refl

  pub vault_key_again :
      (given id : String) (s : FileStore) (key : Bytes)
      → clean_cluster_id given ≡ ok id
      → Holds s id key
      → vault_key c w given s ≡ (ok key, s)
  unfolding vault_key ensure_key
  vault_key_again given id s key clean held =
      rw (lift-bind (clean_cluster_id given) id (ensure_key c w) s clean, gets-bind)
        (rw held.cached (cached_or_again key (fetch_key c w id) s held.nonempty))
