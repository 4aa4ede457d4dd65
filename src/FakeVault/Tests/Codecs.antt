-- ===== src/FakeVault/Tests/Codecs.antt =====
-- A codec for the store's data, with the laws that the store relies on.
use podplane.Base.{
  ℕ, ℤ, String, Bool, true, List, [], Option, none, some, errorf, Result, ok, err, refl, ap, ◌∙◌,
  ◌≡◌, subst, ok-injective, arith, if◌then◌else◌, Bool-cases, inl, inr,
}
use podplane.FakeVault.Types.{Bytes, Values, SecretFile, VaultKeyFile, Codec}
use podplane.FakeVault.Laws.{CodecLaws, is_int64}
use podplane.FakeVault.Tests.Encodings.{Encoding, number, both, through, list, bool, int, words}

abbrev of_file : SecretFile → (ℤ × String) × ((Bytes × Bytes) × (List Bytes × (Bool × String)))
of_file f =
    ((f.version, f.algorithm), ((f.nonce, f.ciphertext), (f.keys, (f.archived, f.updated_at))))

abbrev to_file : (ℤ × String) × ((Bytes × Bytes) × (List Bytes × (Bool × String))) → SecretFile
to_file ((version, algorithm), ((nonce, ciphertext), (keys, (archived, updated_at)))) = record {
  version = version;
  algorithm = algorithm;
  nonce = nonce;
  ciphertext = ciphertext;
  keys = keys;
  archived = archived;
  updated_at = updated_at;
}

abbrev of_key : VaultKeyFile → ℤ × (String × Bytes)
of_key f = (f.version, (f.algorithm, f.key))

abbrev to_key : ℤ × (String × Bytes) → VaultKeyFile
to_key (version, (algorithm, key)) = record { version = version; algorithm = algorithm; key = key }

abbrev bytes : Encoding Bytes
bytes = list number

abbrev values_encoding : Encoding Values
values_encoding = list (both bytes bytes)

abbrev file_encoding : Encoding SecretFile
file_encoding =
    through of_file to_file (λ f. refl)
      (both (both int words) (both (both bytes bytes) (both (list bytes) (both bool words))))

abbrev key_encoding : Encoding VaultKeyFile
key_encoding = through of_key to_key (λ f. refl) (both int (both words bytes))

abbrev read_all : {A : Type 0} → Option (A × List ℕ) → Result A
read_all none = err (errorf "unexpected end of input" [])
read_all (some (a, rest)) = ok a

-- A version that is no 64-bit int is refused.
abbrev in_range : Result SecretFile → Result SecretFile
in_range (err e) = err e
in_range (ok f) = if is_int64 f.version then ok f else err (errorf "cannot unmarshal number" [])

in_range-ok :
    (r : Result SecretFile) (f : SecretFile) → in_range r ≡ ok f → is_int64 f.version ≡ true
in_range-ok (err e) f h = absurd (ground arith)
in_range-ok (ok g) f h = elim (Bool-cases (is_int64 g.version)) [
  | inl fits ↦
      subst (λ (f : SecretFile). is_int64 f.version ≡ true) (ok-injective (rw fits at h)) fits
  | inr other ↦ absurd (ground arith)
]

in_range_fits : (f : SecretFile) → is_int64 f.version ≡ true → in_range (ok f) ≡ ok f
in_range_fits f fits = rw fits refl

abbrev pub codec : Codec
codec = record {
  valid_utf8 = λ b. true;
  marshal_values = λ v. values_encoding.put v [];
  unmarshal_values = λ b. read_all (values_encoding.get b);
  marshal_file = λ f. file_encoding.put f [];
  unmarshal_file = λ b. in_range (read_all (file_encoding.get b));
  marshal_key = λ f. key_encoding.put f [];
  unmarshal_key = λ b. read_all (key_encoding.get b);
  encode64 = λ b. b;
  decode64 = λ b. ok b;
  new_cipher = λ key. ok tt;
  seal = λ key nonce plaintext path. plaintext;
  open_sealed = λ key nonce sealed path. ok sealed;
}

pub codec_laws : CodecLaws codec
codec_laws = record {
  file_round_trip = λ f fits.
      ap (λ r. in_range (read_all r)) (file_encoding.get-put f []) ∙ in_range_fits f fits.version;
  values_round_trip = λ v sorted text. ap read_all (values_encoding.get-put v []);
  file_version = λ b f h. in_range-ok (read_all (file_encoding.get b)) f h;
  base64_utf8 = λ b. refl;
  base64_round_trip = λ b. refl;
  open-seal = λ key nonce plaintext path sized fits. refl;
}
