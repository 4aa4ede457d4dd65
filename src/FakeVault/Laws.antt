-- ===== src/FakeVault/Laws.antt =====
-- The documented behaviour of Go's packages on which the round trip rests, and what one read of a
-- file returns.
use podplane.Base.{
  ℤ, pos, negsuc, ltb, length, ◌^◌, all, String, [], ◌∷◌, Option, none, some, ok, ◌≡◌, arith, Bool,
  true, ◌&&◌, not,
}
use podplane.Base.Assoc.{lookup}
use podplane.Base.Exec.{◌>>=◌}
use podplane.FakeVault.Paths.{secret_file_path}
use podplane.FakeVault.Types.{Bytes, Values, SecretFile, FileStore, Codec, World}
use podplane.FakeVault.Store.{read_file, bytes_le}
use podplane.FakeVault.Operations.{all_utf8}

-- The keys ascend strictly, as the entries of a Go map do in the order of the keys.
abbrev pub ascending : Values → Bool
ascending [] = true
ascending (e ∷ []) = true
ascending (e ∷ f ∷ values) = bytes_le e.0 f.0 && not (bytes_le f.0 e.0) && ascending (f ∷ values)

-- Go's int has 64 bits.
abbrev pub is_int64 : ℤ → Bool
is_int64 (pos n) = ltb n (2 ^ 63)
is_int64 (negsuc n) = ltb n (2 ^ 63)

-- A file that JSON can keep: its texts are valid UTF-8, and its version is an int.
pub record IsEncodable (c : Codec) (f : SecretFile) : Type 0 where
  pub version : is_int64 f.version ≡ true
  pub nonce : c.valid_utf8 f.nonce ≡ true
  pub ciphertext : c.valid_utf8 f.ciphertext ≡ true
  pub keys : all c.valid_utf8 f.keys ≡ true

-- JSON keeps what it encodes if the texts are valid UTF-8 and the numbers fit, and decodes no number
-- that does not fit; base64 is ASCII and is decoded to what was encoded, and AES-GCM opens what it
-- sealed under the same key, nonce of the standard size and additional data.
pub record CodecLaws (c : Codec) : Type 0 where
  pub file_round_trip :
      (f : SecretFile) → IsEncodable c f → c.unmarshal_file (c.marshal_file f) ≡ ok f
  pub file_version :
      (b : Bytes) (f : SecretFile) → c.unmarshal_file b ≡ ok f → is_int64 f.version ≡ true
  pub values_round_trip :
      (v : Values)
      → ascending v ≡ true
      → all_utf8 c v ≡ true
      → c.unmarshal_values (c.marshal_values v) ≡ ok v
  pub base64_utf8 : (b : Bytes) → c.valid_utf8 (c.encode64 b) ≡ true
  pub base64_round_trip : (b : Bytes) → c.decode64 (c.encode64 b) ≡ ok b
  pub open-seal :
      (key nonce plaintext : Bytes) (path : String)
      → length nonce ≡ 12
      → c.new_cipher key ≡ ok tt
      → c.open_sealed key nonce (c.seal key nonce plaintext path) path ≡ ok plaintext

module _ (c : Codec) (w : World) where
  pub read_file-found :
      (id path : String) (s : FileStore) (bytes : Bytes) (file : SecretFile)
      → w.read_file ≡ none
      → lookup (secret_file_path s.root id path) s.files ≡ some bytes
      → c.unmarshal_file bytes ≡ ok file
      → read_file c w id path s ≡ (ok (some file), s)
  unfolding read_file ◌>>=◌
  read_file-found id path s bytes file readable found decoded = rw (readable, found, decoded)

  pub read_file-missing :
      (id path : String) (s : FileStore)
      → w.read_file ≡ none
      → lookup (secret_file_path s.root id path) s.files ≡ none
      → read_file c w id path s ≡ (ok none, s)
  unfolding read_file ◌>>=◌
  read_file-missing id path s readable missing = rw (readable, missing)

  -- A read that succeeds has found what is on the disk.
  pub read_file-decoded :
      (id path : String) (s : FileStore) (bytes : Bytes) (file : SecretFile)
      (current : Option SecretFile)
      → lookup (secret_file_path s.root id path) s.files ≡ some bytes
      → c.unmarshal_file bytes ≡ ok file
      → (read_file c w id path s).0 ≡ ok current
      → current ≡ some file
  unfolding read_file ◌>>=◌
  read_file-decoded id path s bytes file current found decoded h = ground arith
