-- ===== src/FakeVault/Types.antt =====
-- store.go: the stored data, the store's state, and what one call gets from outside.
use podplane.Base.{ℕ, ℤ, Bool, String, List, Option, Error, Result}
use podplane.Base.Assoc.{Assoc}

abbrev pub Bytes : Type 0
Bytes = List ℕ

-- A Go map[string]string, by its entries in the order of the keys. Keys and values are Go
-- strings, which need not be valid UTF-8.
abbrev pub Values : Type 0
Values = List (Bytes × Bytes)

pub record VaultKeyFile : Type 0 where
  pub version : ℤ
  pub algorithm : String
  pub key : Bytes

pub record SecretFile : Type 0 where
  pub version : ℤ
  pub algorithm : String
  pub nonce : Bytes
  pub ciphertext : Bytes
  pub keys : List Bytes
  pub archived : Bool
  pub updated_at : String

-- FileStore with what it reaches: the cached keys, the keyring behind `backend`, the files below
-- `root` by their names, and apart from them the temporary files of writes: os.CreateTemp picks a
-- name that no file has.
pub record FileStore : Type 0 where
  pub root : String
  pub keys : Assoc Bytes
  pub keyring : Assoc Bytes
  pub files : Assoc Bytes
  pub temporaries : Assoc Bytes

-- Go's packages encoding/json, encoding/base64, unicode/utf8, crypto/aes and crypto/cipher.
-- `seal` and `open_sealed` are AES-GCM with key, nonce, text and additional data.
pub record Codec : Type 0 where
  pub valid_utf8 : Bytes → Bool
  pub marshal_values : Values → Bytes
  pub unmarshal_values : Bytes → Result Values
  pub marshal_file : SecretFile → Bytes
  pub unmarshal_file : Bytes → Result SecretFile
  pub marshal_key : VaultKeyFile → Bytes
  pub unmarshal_key : Bytes → Result VaultKeyFile
  pub encode64 : Bytes → Bytes
  pub decode64 : Bytes → Result Bytes
  pub new_cipher : Bytes → Result (Unit {0})
  pub seal : Bytes → Bytes → Bytes → String → Bytes
  pub open_sealed : Bytes → Bytes → Bytes → String → Result Bytes

-- How each step of writeFileAtomic ends, `none` for success, with the name that os.CreateTemp picks
-- and what a write that fails has written. `remove` is the deferred os.Remove.
pub record WriteSteps : Type 0 where
  pub mkdir : Option Error
  pub create_temp : Option Error
  pub temporary : String
  pub partial : Bytes
  pub remove : Option Error
  pub chmod : Option Error
  pub write : Option Error
  pub sync : Option Error
  pub close : Option Error
  pub rename : Option Error
  pub open_directory : Option Error
  pub sync_directory : Option Error

-- What the operating system, the keyring and the random source answer during one call. A read of
-- a file that is not there is no failure. A failed os.RemoveAll leaves the files that `survives`.
pub record World : Type 0 where
  pub now : String
  pub random_nonce : Result Bytes
  pub random_key : Result Bytes
  pub read_file : Option Error
  pub write_file : WriteSteps
  pub remove_file : Option Error
  pub remove_all : Option Error
  pub survives : String → Bool
  pub keyring_read : Option Error
  pub keyring_write : Option Error
  pub keyring_delete : Option Error
