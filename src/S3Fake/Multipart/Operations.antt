-- ===== src/S3Fake/Multipart/Operations.antt =====
-- s3fake.go: the operations on multipart uploads that change the directory or the backend.
use podplane.Base.{
  ℕ, zero, suc, ◌+◌, ltb, ◌==◌, ◌||◌, not, String, List, [], ◌∷◌, ◌<>◌, Option, none, some,
  if◌then◌else◌, Result, ok, err, Error, length,
}
use podplane.Base.Assoc.{Assoc, lookup, insert, without}
use podplane.Base.Strings.{decimal}
use podplane.Base.Exec.{Exec, pure, lift, gets, modify, fail_if, ◌>>=◌, ◌>>◌}
use podplane.S3Fake.Multipart.Files.{
  Bytes, Storage, Library, Steps, CompletedPart, multipart_upload, multipart_part_name, quote,
  etag_of, check_order, find_parts, concat, total_size, digests,
}

abbrev pub succeeded : Option Error → Result (Unit {0})
succeeded none = ok tt
succeeded (some e) = err e

-- io.LimitReader
unfoldable pub take : ℕ → Bytes → Bytes
take zero bytes = []
take (suc n) [] = []
take (suc n) (b ∷ bytes) = b ∷ take n bytes

abbrev pub with_file : String → Bytes → Option (Assoc Bytes) → Assoc Bytes
with_file name bytes none = (name, bytes) ∷ []
with_file name bytes (some files) = insert name bytes files

abbrev pub without_file : String → Option (Assoc Bytes) → Assoc Bytes
without_file name none = []
without_file name (some files) = without name files

module _ {Backend : Type 0} (lib : Library Backend) (o : Steps) where
  abbrev pub write : String → String → Bytes → Storage Backend → Storage Backend
  write id name bytes s = record s {
    dirs = insert id (with_file name bytes (lookup id s.dirs)) s.dirs;
  }

  abbrev pub remove : String → String → Storage Backend → Storage Backend
  remove id name s = record s { dirs = insert id (without_file name (lookup id s.dirs)) s.dirs }

  abbrev pub remove_temp : String → Storage Backend → Storage Backend
  remove_temp id s = if o.removes_temp then remove id o.temporary s else s

  abbrev pub written_by : Option Error → Option Error → ℕ → Bytes → Result (Unit {0})
  written_by (some e) close content_length bytes = err e
  written_by none (some e) content_length bytes = err e
  written_by none none content_length bytes =
      if not (length bytes == content_length) then err lib.incomplete_body else ok tt

  -- How the copy and the closing of the file ended.
  abbrev pub written : ℕ → Bytes → Result (Unit {0})
  written content_length bytes = written_by o.copy o.close content_length bytes

  -- An error, behind which the temporary file is removed.
  unfoldable pub or_clean_up : String → Result (Unit {0}) → Exec (Storage Backend) (Unit {0})
  or_clean_up id (ok tt) s = (ok tt, s)
  or_clean_up id (err e) s = (err e, remove_temp id s)

  -- UploadPart, where `input` is what the reader gives.
  unfoldable pub upload_part :
      String → String → String → ℕ → ℕ → Bytes → Exec (Storage Backend) String
  upload_part bucket object id number content_length input = do
    fail_if (number == 0 || ltb lib.max_part_number number) lib.invalid_part
    checked ← gets (λ s. multipart_upload lib o s bucket object id)
    upload ← lift checked
    lift (succeeded o.create_temp)
    modify (write id o.temporary (take (content_length + 1) input))
    or_clean_up id (written content_length (take (content_length + 1) input))
    or_clean_up id (succeeded o.rename_part)
    modify (λ s.
        write id (multipart_part_name number) (take (content_length + 1) input)
          (remove id o.temporary s))
    pure (etag_of lib o (take (content_length + 1) input))

  abbrev pub left_over :
      String → Option (Error × Assoc Bytes) → Assoc (Assoc Bytes) → Assoc (Assoc Bytes)
  left_over name none dirs = without name dirs
  left_over name (some (e, files)) dirs = insert name files dirs

  -- os.RemoveAll of a directory.
  abbrev pub remove_all : String → Storage Backend → Storage Backend
  remove_all name s = record s { dirs = left_over name o.remains s.dirs }

  abbrev pub moved :
      String → String → Option (Assoc Bytes) → Assoc (Assoc Bytes) → Assoc (Assoc Bytes)
  moved id name none dirs = dirs
  moved id name (some files) dirs = insert name files (without id dirs)

  abbrev pub dropped : String → Option Error → Storage Backend → Storage Backend
  dropped id none s =
      remove_all (".completed-" <> id)
        (record s { dirs = moved id (".completed-" <> id) (lookup id s.dirs) s.dirs })
  dropped id (some e) s = remove_all id s

  -- The upload's directory goes away under another name.
  abbrev pub drop_upload : String → Storage Backend → Storage Backend
  drop_upload id s = dropped id o.rename_dir s

  unfoldable pub put_object :
      String → String → Assoc String → Bytes → ℕ → Exec (Storage Backend) String
  put_object bucket object metadata body size s =
      let r = lib.put_object bucket object metadata body size s.backend in
      (r.0, record s { backend = r.1 })

  -- CompleteMultipartUpload
  unfoldable pub complete_multipart_upload :
      String → String → String → List CompletedPart → Exec (Storage Backend) (String × String)
  complete_multipart_upload bucket object id parts = do
    checked ← gets (λ s. multipart_upload lib o s bucket object id)
    upload ← lift checked
    lift (check_order lib o 0 parts)
    looked ← gets (λ s. find_parts lib o s id parts)
    found ← lift looked
    version ← put_object bucket object upload.metadata (concat lib o found) (total_size lib o found)
    modify (drop_upload id)
    pure (
      version,
      quote (lib.hex (lib.md5 (digests lib o found)) <> ("-" <> decimal (length parts))),
    )

  abbrev pub removal_error : Option (Error × Assoc Bytes) → Result (Unit {0})
  removal_error none = ok tt
  removal_error (some (e, files)) = err e

  -- AbortMultipartUpload
  unfoldable pub abort_multipart_upload :
      String → String → String → Exec (Storage Backend) (Unit {0})
  abort_multipart_upload bucket object id = do
    checked ← gets (λ s. multipart_upload lib o s bucket object id)
    upload ← lift checked
    modify (remove_all id)
    lift (removal_error o.remains)
