-- ===== src/S3Fake/Multipart/Uploading.antt =====
-- s3fake.go: a part that UploadPart has stored, and what CompleteMultipartUpload finds of it.
use text.Mathlib.TextPositions.{eq_refl}
use podplane.Base.{
  ℕ, ◌+◌, ◌||◌, ltb, ◌==◌, ◌≡◌, refl, sym, ap, ◌∙◌, subst, arith, String, Option, none, some,
  Result, ok, err, Error, length, ok-injective,
}
use podplane.Base.Assoc.{Assoc, lookup, insert, lookup-insert}
use podplane.Base.Strings.{trim}
use podplane.Base.Exec.{Exec, pure, gets, modify, ◌>>◌}
use podplane.Base.Exec.Keeps.{bind-ok, lift-ok, fail_if-ok, modify-pure}
use podplane.S3Fake.Multipart.Files.{
  Bytes, Storage, Library, Steps, contents, read_file, multipart_upload, multipart_part_name,
  is_quote, etag_of, matched,
}
use podplane.S3Fake.Multipart.Operations.{
  succeeded, take, write, remove, written, written_by, with_file, or_clean_up, upload_part,
}

lookup-insert_same :
    {V : Type 0} (name : String) (v : V) (m : Assoc V) → lookup name (insert name v m) ≡ some v
lookup-insert_same name v m = lookup-insert name name v m ∙ rw (eq_refl name) refl

lookup-with_file :
    (name : String) (bytes : Bytes) (dir : Option (Assoc Bytes))
    → lookup name (with_file name bytes dir) ≡ some bytes
unfolding lookup
lookup-with_file name bytes none = rw (eq_refl name) refl
lookup-with_file name bytes (some files) = lookup-insert_same name bytes files

module _ {Backend : Type 0} (lib : Library Backend) (o : Steps) where
  or_clean_up-ok :
      (id : String) (r : Result (Unit {0})) (s : Storage Backend)
      → (or_clean_up lib o id r s).0 ≡ ok tt
      → r ≡ ok tt
  unfolding or_clean_up
  or_clean_up-ok id (ok tt) s h = refl
  or_clean_up-ok id (err e) s h = absurd (ground arith)

  -- A written file is read back, if it can be read.
  read_file-write :
      (o' : Steps) (id name : String) (bytes : Bytes) (s : Storage Backend)
      → o'.read name ≡ none
      → read_file lib o' (write lib o id name bytes s) id name ≡ contents bytes
  unfolding read_file
  read_file-write o' id name bytes s readable =
      rw
        (
          lookup-insert_same id (with_file name bytes (lookup id s.dirs)) s.dirs,
          lookup-with_file name bytes (lookup id s.dirs),
          readable,
        )
        refl

  written-length :
      (copy close : Option Error) (content_length : ℕ) (bytes : Bytes)
      → written_by lib o copy close content_length bytes ≡ ok tt
      → length bytes ≡ content_length
  written-length (some e) close content_length bytes h = absurd (ground arith)
  written-length none (some e) content_length bytes h = absurd (ground arith)
  written-length none none content_length bytes h = ground arith

  -- The ETag of a part is accepted for it.
  matched-etag_of :
      (o' : Steps) (number : ℕ) (body : Bytes)
      → matched lib o' (record { number = number; etag = etag_of lib o body }) (contents body)
        ≡ ok body
  matched-etag_of o' number body = rw (eq_refl (trim is_quote (etag_of lib o body))) refl

  -- If UploadPart succeeds and the part's file can be read later, then CompleteMultipartUpload
  -- finds, for the part's number and the ETag that was returned, the bytes that were uploaded,
  -- which are as many as were announced.
  pub matched-upload_part :
      (o' : Steps) (bucket object id : String) (number content_length : ℕ) (input : Bytes)
      (s : Storage Backend) (etag : String)
      → (upload_part lib o bucket object id number content_length input s).0 ≡ ok etag
      → o'.read (multipart_part_name number) ≡ none
      → (matched lib o'
            (record { number = number; etag = etag })
            (read_file lib o'
              (upload_part lib o bucket object id number content_length input s).1
              id
              (multipart_part_name number))
          ≡ ok (take (content_length + 1) input))
        × (length (take (content_length + 1) input) ≡ content_length)
  unfolding upload_part gets
  matched-upload_part o' bucket object id number content_length input s etag h readable =
      let body : Bytes = take (content_length + 1) input in
      let (_, h₁, e₁) =
        fail_if-ok (number == 0 || ltb lib.max_part_number number) lib.invalid_part _ s h in
      let (checked, _, h₂, e₂) =
        bind-ok (gets (λ s. multipart_upload lib o s bucket object id)) _ s h₁ in
      let (_, _, h₃, e₃) = lift-ok checked _ s h₂ in
      let (_, _, h₄, e₄) = lift-ok (succeeded o.create_temp) _ s h₃ in
      let temporary : Exec (Storage Backend) (Unit {0}) =
        modify (write lib o id o.temporary body) in
      let (_, _, h₅, e₅) = bind-ok temporary _ s h₄ in
      let copied : Exec (Storage Backend) (Unit {0}) =
        or_clean_up lib o id (written lib o content_length body) in
      let (_, did, h₆, e₆) = bind-ok copied _ _ h₅ in
      let renamed : Exec (Storage Backend) (Unit {0}) =
        or_clean_up lib o id (succeeded o.rename_part) in
      let (_, _, h₇, e₇) = bind-ok renamed _ _ h₆ in
      let before : Storage Backend = (renamed (copied (temporary s).1).1).1 in
      let stores : Storage Backend → Storage Backend =
        λ s. write lib o id (multipart_part_name number) body (remove lib o id o.temporary s) in
      let last : (modify stores >> pure (etag_of lib o body)) before
          ≡ (ok (etag_of lib o body), stores before) =
        modify-pure stores (etag_of lib o body) before in
      let tagged : etag_of lib o body ≡ etag =
        ok-injective (sym (ap (λ (r : Result String × Storage Backend). r.0) last) ∙ h₇) in
      let found : read_file lib o'
            (upload_part lib o bucket object id number content_length input s).1 id
            (multipart_part_name number)
          ≡ contents body =
        ap
          (λ (r : Result String × Storage Backend).
            read_file lib o' r.1 id (multipart_part_name number))
          (e₁ ∙ e₂ ∙ e₃ ∙ e₄ ∙ e₅ ∙ e₆ ∙ e₇ ∙ last)
        ∙ read_file-write o' id (multipart_part_name number) body _ readable in
      (
        ap (matched lib o' (record { number = number; etag = etag })) found
            ∙ subst
                (λ t.
                  matched lib o' (record { number = number; etag = t }) (contents body) ≡ ok body)
                tagged (matched-etag_of o' number body),
        written-length o.copy o.close content_length body
            (or_clean_up-ok id (written lib o content_length body) (temporary s).1 did),
      )
