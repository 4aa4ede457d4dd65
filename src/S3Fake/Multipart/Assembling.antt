-- ===== src/S3Fake/Multipart/Assembling.antt =====
-- s3fake.go: what CompleteMultipartUpload gives to the backend, and for which upload.
use podplane.Base.{
  ◌+◌, Bool, true, false, not, ◌||◌, ◌≡◌, refl, sym, ap, ◌∙◌, subst, arith, String, List, [], ◌∷◌,
  ◌++◌, map, ◌=ˢ◌, if◌then◌else◌, ok, err, Error, length, bind-ok as chain-ok, ok-injective,
  or-false, eq_iff, not-false,
}
use podplane.Base.Lists.{length-append}
use podplane.Base.Assoc.{Assoc}
use podplane.Base.Exec.{Exec}
use podplane.S3Fake.Multipart.Files.{
  Bytes, Upload, Storage, Library, Steps, Found, missing, failed, contents, read_file, loaded,
  multipart_upload, valid_multipart_upload_id, concat, total_size, digests,
}
use podplane.S3Fake.Multipart.Operations.{put_object}

-- The parts one behind the other.
abbrev pub joined : List Bytes → Bytes
joined [] = []
joined (part ∷ parts) = part ++ joined parts

chosen :
    (apart : Bool) (upload found : Upload) (e : Error)
    → (if apart then err e else ok upload) ≡ ok found
    → (apart ≡ false) × (upload ≡ found)
chosen true upload found e h = absurd (ground arith)
chosen false upload found e h = (refl, ok-injective h)

module _ {Backend : Type 0} (lib : Library Backend) (o : Steps) where
  total_size-joined : (parts : List Bytes) → total_size lib o parts ≡ length (joined parts)
  total_size-joined [] = refl
  total_size-joined (part ∷ parts) =
      ap (λ n. length part + n) (total_size-joined parts) ∙ sym (length-append part (joined parts))

  concat-joined : (parts : List Bytes) → concat lib o parts ≡ joined parts
  concat-joined [] = refl
  concat-joined (part ∷ parts) = ap (λ bytes. part ++ bytes) (concat-joined parts)

  pub digests-joined : (parts : List Bytes) → digests lib o parts ≡ joined (map lib.md5 parts)
  digests-joined [] = refl
  digests-joined (part ∷ parts) = ap (λ bytes. lib.md5 part ++ bytes) (digests-joined parts)

  loaded-names :
      (bucket object : String) (f : Found) {upload : Upload}
      → loaded lib o bucket object f ≡ ok upload
      → (upload.bucket ≡ bucket) × (upload.object ≡ object)
  loaded-names bucket object missing h = absurd (ground arith)
  loaded-names bucket object (failed e) h = absurd (ground arith)
  loaded-names bucket object (contents text) {upload} h =
      let (read, _, h₁) = chain-ok (lib.unmarshal text) _ h in
      let (same, is_read) =
        chosen (not (read.bucket =ˢ bucket) || not (read.object =ˢ object)) read upload
          lib.no_such_upload h₁ in
      let (bucket_same, object_same) =
        or-false (not (read.bucket =ˢ bucket)) (not (read.object =ˢ object)) same in
      subst (λ (u : Upload). (u.bucket ≡ bucket) × (u.object ≡ object)) is_read
        ((eq_iff _ _).0 (not-false _ bucket_same), (eq_iff _ _).0 (not-false _ object_same))

  pub same_names :
      (bucket object id : String) (s : Storage Backend) {upload : Upload}
      → multipart_upload lib o s bucket object id ≡ ok upload
      → (upload.bucket ≡ bucket) × (upload.object ≡ object)
  unfolding multipart_upload
  same_names bucket object id s {upload} h = by_id (valid_multipart_upload_id id) h
    where
      by_id :
          (valid : Bool)
          → (if valid
              then loaded lib o bucket object (read_file lib o s id "upload.json")
              else err lib.no_such_upload)
            ≡ ok upload
          → (upload.bucket ≡ bucket) × (upload.object ≡ object)
      by_id true h = loaded-names bucket object (read_file lib o s id "upload.json") h
      by_id false h = absurd (ground arith)

  module _ (bucket object : String) (metadata : Assoc String) (found : List Bytes)
      (s : Storage Backend) where
    abbrev put : Exec (Storage Backend) String
    put = put_object lib o bucket object metadata (concat lib o found) (total_size lib o found)

    -- The backend gets the parts one behind the other, and their length.
    pub put_object-joined :
        {version : String}
        → (put s).0 ≡ ok version
        → lib.put_object bucket object metadata (joined found) (length (joined found)) s.backend
          ≡ (ok version, (put s).1.backend)
    unfolding put_object
    put_object-joined h =
        ap (λ n. lib.put_object bucket object metadata (joined found) n s.backend)
          (sym (total_size-joined found))
        ∙ ap (λ b. lib.put_object bucket object metadata b (total_size lib o found) s.backend)
            (sym (concat-joined found))
        ∙ ap (λ r. (r, (put s).1.backend)) h

    pub put_object-dirs : (put s).1.dirs ≡ s.dirs
    unfolding put_object
    put_object-dirs = refl
