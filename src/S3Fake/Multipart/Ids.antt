-- ===== src/S3Fake/Multipart/Ids.antt =====
-- s3fake.go: the upload IDs that validMultipartUploadID accepts.
use Prim.Native.Char.{code}
use Prim.Native.String.{String, [], ◌∷◌}
use podplane.Base.{
  ℕ, Bool, true, false, not, and_split, ◌≡◌, ◌≢◌, refl, arith, ◌=ˢ◌, ◌==◌, eq_iff, ◌||◌,
}
use podplane.Base.Strings.{trim, every, contains_any, is_slash}
use podplane.Base.Strings.Trimming.{trim-empty}
use podplane.S3Fake.Multipart.Files.{alphabet, valid_multipart_upload_id}

abbrev pub is_dot : ℕ → Bool
is_dot c = c == b'.'

-- No character of the alphabet leads out of a directory.
every-contains_any :
    (s : String) → every alphabet s ≡ true → contains_any (λ c. is_slash c || is_dot c) s ≡ false
unfolding contains_any
every-contains_any [] h = refl
every-contains_any (c ∷ s) h =
    let (first, rest) = and_split (alphabet (code c)) (every alphabet s) h in
    ground (arith, every-contains_any s rest)

-- An upload ID that is accepted is not empty, has only capital letters and the digits 2 to 7,
-- and so neither a slash nor a dot.
pub valid-contains_any :
    (id : String)
    → valid_multipart_upload_id id ≡ true
    → (id ≢ "")
      × (every alphabet id ≡ true)
      × (contains_any (λ c. is_slash c || is_dot c) id ≡ false)
unfolding valid_multipart_upload_id
valid-contains_any id h =
    let (filled, trimmed) = and_split (not (id =ˢ "")) (trim alphabet id =ˢ "") h in
    let letters : every alphabet id ≡ true =
      trim-empty alphabet id ((eq_iff (trim alphabet id) "").0 trimmed) in
    (λ same. absurd (ground (arith, eq_iff id "")), letters, every-contains_any id letters)
