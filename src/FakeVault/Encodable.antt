-- ===== src/FakeVault/Encodable.antt =====
-- store.go: every file that setSecret writes can be kept by JSON.
use podplane.Base.{
  ℕ, zero, suc, ℤ, pos, negsuc, true, ◌&&◌, and_split, String, List, [], ◌∷◌, all, Option, none,
  some, ok, err, wrapped, map_ok, Result, ◌≡◌, refl, arith, ◌^◌, ltb, Option-cases, inl, inr,
}
use podplane.Base.Assoc.{lookup}
use podplane.Base.Exec.{◌>>=◌}
use podplane.FakeVault.Paths.{secret_file_path}
use podplane.FakeVault.Types.{Bytes, Values, SecretFile, FileStore, Codec, World}
use podplane.FakeVault.Store.{
  effective_version, next_version, insert_sorted, sorted_keys, decode_file, read_file,
}
use podplane.FakeVault.Operations.{all_utf8, version_after, sealed_file}
use podplane.FakeVault.Laws.{is_int64, IsEncodable, CodecLaws}

is_int64_next : (n : ℕ) → ltb n (2 ^ 63) ≡ true → is_int64 (next_version n) ≡ true
is_int64_next n h = ground arith

effective_int64 : (v : ℤ) → is_int64 v ≡ true → ltb (effective_version v) (2 ^ 63) ≡ true
effective_int64 (pos zero) h = refl
effective_int64 (pos (suc n)) h = h
effective_int64 (negsuc n) h = refl

module _ (c : Codec) where
  all-insert_sorted :
      (k : Bytes) (ks : List Bytes)
      → c.valid_utf8 k ≡ true
      → all c.valid_utf8 ks ≡ true
      → all c.valid_utf8 (insert_sorted k ks) ≡ true
  all-insert_sorted k [] valid valids = ground arith
  all-insert_sorted k (j ∷ ks) valid valids =
      let (first, rest) = and_split (c.valid_utf8 j) (all c.valid_utf8 ks) valids in
      ground (arith, all-insert_sorted k ks valid rest)

  all-sorted_keys :
      (values : Values) → all_utf8 c values ≡ true → all c.valid_utf8 (sorted_keys values) ≡ true
  unfolding sorted_keys
  all-sorted_keys [] valid = refl
  all-sorted_keys ((k, v) ∷ values) valid =
      let (first, rest) = and_split (c.valid_utf8 k && c.valid_utf8 v) (all_utf8 c values) valid in
      let (key, value) = and_split (c.valid_utf8 k) (c.valid_utf8 v) first in
      all-insert_sorted k (sorted_keys values) key (all-sorted_keys values rest)

module _ (c : Codec) (laws : CodecLaws c) (w : World) where
  version_of_decoded :
      (bytes : Option Bytes) (file : SecretFile)
      → decode_file c w bytes ≡ ok (some file)
      → is_int64 file.version ≡ true
  version_of_decoded none file h = absurd (ground arith)
  version_of_decoded (some bytes) file h = decoded (c.unmarshal_file bytes) refl h
    where
      decoded :
          (r : Result SecretFile)
          → c.unmarshal_file bytes ≡ r
          → map_ok some (wrapped "decode fakevault secret file: %w" [] r) ≡ ok (some file)
          → is_int64 file.version ≡ true
      decoded (ok f) read h = laws.file_version bytes file (ground arith)
      decoded (err e) read h = absurd (ground arith)

  version_of_read :
      (id path : String) (s : FileStore) (file : SecretFile)
      → (read_file c w id path s).0 ≡ ok (some file)
      → is_int64 file.version ≡ true
  unfolding read_file ◌>>=◌
  version_of_read id path s file h = elim (Option-cases w.read_file) [
    | inl fine ↦
        version_of_decoded (lookup (secret_file_path s.root id path) s.files) file (ground arith)
    | inr (e, failed) ↦ absurd (ground arith)
  ]

  version_after-int64 :
      (id path : String) (s : FileStore) (current : Option SecretFile)
      → (read_file c w id path s).0 ≡ ok current
      → is_int64 (version_after current) ≡ true
  version_after-int64 id path s none h = refl
  version_after-int64 id path s (some file) h =
      is_int64_next (effective_version file.version)
        (effective_int64 file.version (version_of_read id path s file h))

  pub sealed_file-IsEncodable :
      (id path : String) (s : FileStore) (current : Option SecretFile) (key nonce : Bytes)
      (values : Values)
      → (read_file c w id path s).0 ≡ ok current
      → all_utf8 c values ≡ true
      → IsEncodable c (sealed_file c w key nonce path values (version_after current))
  sealed_file-IsEncodable id path s current key nonce values found text = record {
    version = version_after-int64 id path s current found;
    nonce = laws.base64_utf8 nonce;
    ciphertext = laws.base64_utf8 _;
    keys = all-sorted_keys c values text;
  }
