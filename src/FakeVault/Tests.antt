-- ===== src/FakeVault/Tests.antt =====
-- The laws of the vault at work: a concrete codec, and calls on a store that starts empty.
mod Encodings
mod Codecs
use podplane.Base.{
  ℕ, ℤ, pos, String, Bool, true, false, List, [], ◌∷◌, Option, none, some, Error, errorf, Result,
  ok, err, ◌≡◌, ◌≢◌, refl, arith, ◌+◌, ap, sym, length, ok-injective,
}
use podplane.Base.Exec.{Exec, ◌>>=◌, ◌>>◌}
use podplane.Base.Assoc.{lookup, insert, without}
use podplane.Base.Strings.{trim_left, trim_right, contains_any, cut_prefix, split}
use podplane.FakeVault.Paths.{clean_cluster_path, clean_cluster_id, secret_file_path}
use podplane.FakeVault.Types.{
  Bytes, Values, SecretFile, VaultKeyFile, FileStore, Codec, WriteSteps, World,
}
use podplane.FakeVault.Store.{
  relabel, sorted_keys, cached_or, read_file, write_file_atomic, install, deferred, write_file,
  create_key, load_key, keyring_key, fetch_key, ensure_key, vault_key,
}
use podplane.FakeVault.Operations.{
  write_sealed, seal_and_write, write_if_matched, set_clean, set_secret_at, compare_and_set_secret,
  get_secret, create_secret, delete_secret, remove_secret, set_archived, archive_secret,
  restore_secret, rewrite_archived, reveal, decrypt,
}
use podplane.FakeVault.Keys.{FillsKey, FillsNonce}
use podplane.FakeVault.Laws.{CodecLaws}
use podplane.FakeVault.Files.{disk}
use podplane.FakeVault.Unwritten.{Unwritten}
use podplane.FakeVault.Failures.{set_secret_at-Unwritten, get-delete, create_secret-missing}
use podplane.FakeVault.Paths.Cleaning.{clean_cluster_id_idem}
use podplane.FakeVault.Success.{IsCalm, no_fault, get-set_secret_at}
use podplane.FakeVault.RoundTrip.{get-set, get-restore-archive}
use podplane.FakeVault.Versions.{compare_and_set_once, version_after_write}
use podplane.FakeVault.Tests.Codecs.{codec, codec_laws}

abbrev some_key : Bytes
some_key =
    0 ∷ 1 ∷ 2 ∷ 3 ∷ 4 ∷ 5 ∷ 6 ∷ 7 ∷ 8 ∷ 9 ∷ 10 ∷ 11 ∷ 12 ∷ 13 ∷ 14 ∷ 15 ∷ 16 ∷ 17 ∷ 18 ∷ 19 ∷ 20
    ∷ 21 ∷ 22 ∷ 23 ∷ 24 ∷ 25 ∷ 26 ∷ 27 ∷ 28 ∷ 29 ∷ 30 ∷ 31 ∷ []

abbrev some_nonce : Bytes
some_nonce = 1 ∷ 2 ∷ 3 ∷ 4 ∷ 5 ∷ 6 ∷ 7 ∷ 8 ∷ 9 ∷ 10 ∷ 11 ∷ 12 ∷ []

-- No step fails.
abbrev calm : World
calm = record {
  now = "2026-01-01T00:00:00Z";
  random_nonce = ok some_nonce;
  random_key = ok some_key;
  read_file = none;
  write_file = no_fault ".main.json-1";
  remove_file = none;
  remove_all = none;
  survives = λ name. false;
  keyring_read = none;
  keyring_write = none;
  keyring_delete = none;
}

calm-FillsKey : FillsKey calm
calm-FillsKey key h = ap length (sym (ok-injective h))

calm-FillsNonce : FillsNonce calm
calm-FillsNonce nonce h = ap length (sym (ok-injective h))

abbrev empty : FileStore
empty = record { root = "/vault"; keys = []; keyring = []; files = []; temporaries = [] }

abbrev password : Values
password = ((1 ∷ []), (7 ∷ 8 ∷ [])) ∷ []

abbrev written : FileStore
written = (set_secret_at codec calm "demo" "v1/db/main" password (some (pos 0)) empty).1

first_set :
    set_secret_at codec calm "demo" "v1/db/main" password (some (pos 0)) empty ≡ (ok true, written)
unfolding without set_secret_at set_clean write_if_matched seal_and_write write_sealed relabel
    cached_or read_file write_file_atomic install deferred write_file create_key keyring_key
    fetch_key ensure_key vault_key clean_cluster_path clean_cluster_id ◌>>=◌ trim_left trim_right
    contains_any cut_prefix split lookup insert secret_file_path sorted_keys
first_set = refl

first_write :
    compare_and_set_secret codec calm "demo" "v1/db/main" (pos 0) password empty
    ≡ (ok true, written)
unfolding compare_and_set_secret
first_write = first_set

get-set_example : get_secret codec calm "demo" "v1/db/main" written ≡ (ok (some password), written)
get-set_example =
    get-set codec codec_laws calm calm "demo" "v1/db/main" password (some (pos 0)) empty written
      calm-FillsKey calm-FillsNonce refl refl first_set

compare_and_set_once_example :
    compare_and_set_secret codec calm "demo" "v1/db/main" (pos 0) password written
    ≢ (ok true, written)
compare_and_set_once_example =
    compare_and_set_once codec codec_laws calm calm "demo" "v1/db/main" (pos 0) password password
      empty written written calm-FillsKey calm-FillsKey first_write

abbrev rewritten : FileStore
rewritten = (set_secret_at codec calm "demo" "v1/db/main" password (some (pos 1)) written).1

second_set :
    set_secret_at codec calm "demo" "v1/db/main" password (some (pos 1)) written
    ≡ (ok true, rewritten)
unfolding without set_secret_at set_clean write_if_matched seal_and_write write_sealed relabel
    cached_or read_file write_file_atomic install deferred write_file create_key keyring_key
    fetch_key ensure_key vault_key clean_cluster_path clean_cluster_id ◌>>=◌ trim_left trim_right
    contains_any cut_prefix split lookup insert secret_file_path sorted_keys
second_set = refl

second_write :
    compare_and_set_secret codec calm "demo" "v1/db/main" (pos 1) password written
    ≡ (ok true, rewritten)
unfolding compare_and_set_secret
second_write = second_set

version_after_write_example : pos 1 ≡ pos (0 + 1)
version_after_write_example =
    version_after_write codec codec_laws calm calm "demo" "v1/db/main" 0 (pos 1) password password
      empty written rewritten calm-FillsKey calm-FillsKey (omega arith) first_write second_write

abbrev archived : FileStore
archived = (archive_secret codec calm "demo" "v1/db/main" written).1

archive : archive_secret codec calm "demo" "v1/db/main" written ≡ (ok tt, archived)
unfolding without archive_secret set_archived rewrite_archived set_secret_at set_clean
    write_if_matched seal_and_write write_sealed relabel cached_or read_file write_file_atomic
    install deferred write_file create_key keyring_key fetch_key ensure_key vault_key
    clean_cluster_path clean_cluster_id ◌>>=◌ trim_left trim_right contains_any cut_prefix split
    lookup insert secret_file_path sorted_keys
archive = refl

abbrev restored : FileStore
restored = (restore_secret codec calm "demo" "v1/db/main" archived).1

restore : restore_secret codec calm "demo" "v1/db/main" archived ≡ (ok tt, restored)
unfolding without archive_secret restore_secret set_archived rewrite_archived set_secret_at
    set_clean write_if_matched seal_and_write write_sealed relabel cached_or read_file
    write_file_atomic install deferred write_file create_key keyring_key fetch_key ensure_key
    vault_key clean_cluster_path clean_cluster_id ◌>>=◌ trim_left trim_right contains_any cut_prefix
    split lookup insert secret_file_path sorted_keys
restore = refl

get-restore-archive_example :
    (get_secret codec calm "demo" "v1/db/main" archived ≡ (ok none, archived))
    × (get_secret codec calm "demo" "v1/db/main" restored ≡ (ok (some password), restored))
get-restore-archive_example =
    get-restore-archive codec codec_laws calm calm calm calm "demo" "v1/db/main" password
      (some (pos 0)) empty written archived restored calm-FillsKey calm-FillsNonce refl refl refl
      refl first_set archive restore

clean_cluster_id_idem_example : clean_cluster_id "demo" ≡ ok "demo"
unfolding clean_cluster_id trim_left trim_right contains_any
clean_cluster_id_idem_example = clean_cluster_id_idem " demo " "demo" refl

-- The disk is full.
abbrev full : World
full = record calm {
  write_file = record (no_fault ".main.json-1") { write = some (errorf "no space left" []) };
}

set_secret_at-Unwritten_example :
    Unwritten full
      (disk written)
      (disk (set_secret_at codec full "demo" "v1/db/main" password none written).1)
unfolding without set_secret_at set_clean write_if_matched seal_and_write write_sealed relabel
    cached_or read_file write_file_atomic install deferred write_file create_key keyring_key
    fetch_key ensure_key vault_key clean_cluster_path clean_cluster_id ◌>>=◌ trim_left trim_right
    contains_any cut_prefix split lookup insert secret_file_path sorted_keys
set_secret_at-Unwritten_example =
    set_secret_at-Unwritten codec full "demo" "v1/db/main" password none written (refl, refl) refl
      cc

abbrev deleted : FileStore
deleted = (delete_secret codec calm "demo" "v1/db/main" written).1

delete : delete_secret codec calm "demo" "v1/db/main" written ≡ (ok tt, deleted)
unfolding delete_secret remove_secret clean_cluster_path clean_cluster_id ◌>>=◌ trim_left trim_right
    contains_any cut_prefix split
delete = refl

get-delete_example : get_secret codec calm "demo" "v1/db/main" deleted ≡ (ok none, deleted)
get-delete_example = get-delete codec calm calm "demo" "v1/db/main" written deleted delete refl

creation : create_secret codec calm "demo" "v1/db/main" password empty ≡ (ok true, written)
unfolding create_secret
creation = first_set

create_secret-missing_example :
    (id : String) × (path : String) × (clean_cluster_path "demo" "v1/db/main" ≡ ok (id, path))
    × (lookup (secret_file_path empty.root id path) empty.files ≡ none)
create_secret-missing_example =
    create_secret-missing codec calm "demo" "v1/db/main" password empty written calm-FillsKey
      creation

abbrev keyed : FileStore
keyed = record empty { keys = ("demo", some_key) ∷ [] }

get-set_secret_at_example :
    ((set_secret_at codec calm "demo" "v1/db/main" password none keyed).0 ≡ ok true)
    × (get_secret codec calm "demo" "v1/db/main"
          (set_secret_at codec calm "demo" "v1/db/main" password none keyed).1
        ≡ (
          ok (some password),
          (set_secret_at codec calm "demo" "v1/db/main" password none keyed).1,
        ))
unfolding clean_cluster_path clean_cluster_id trim_left trim_right contains_any cut_prefix split
    lookup
get-set_secret_at_example =
    get-set_secret_at codec codec_laws calm calm "demo" "v1/db/main" "demo" "db/main" password none
      _ _ keyed calm-FillsKey calm-FillsNonce
      (record {
        nonce = some_nonce;
        random = refl;
        readable = refl;
        temporary = ".main.json-1";
        steps = refl;
      })
      refl refl refl refl refl refl refl refl refl
