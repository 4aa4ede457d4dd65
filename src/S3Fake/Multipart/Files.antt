-- ===== src/S3Fake/Multipart/Files.antt =====
-- s3fake.go: the directory of the multipart uploads, and what is read from it. gofakes3 and its
-- backend, encoding/json, crypto/md5 and the operating system are parameters.
use podplane.Base.{
  ℕ, ◌+◌, ltb, leb, ◌==◌, ◌&&◌, ◌||◌, not, Bool, String, List, [], ◌∷◌, ◌++◌, ◌<>◌, ◌=ˢ◌, Option,
  none, some, if◌then◌else◌, Result, ok, err, Error, ◌>>=◌, length,
}
use podplane.Base.Assoc.{Assoc, lookup}
use podplane.Base.Strings.{trim, decimal}

abbrev pub Bytes : Type 0
Bytes = List ℕ

pub record Upload : Type 0 where
  pub bucket : String
  pub object : String
  pub metadata : Assoc String
  pub initiated : ℕ

-- What multipartDir holds, by the names of its directories and their files, and the backend.
pub record Storage (Backend : Type 0) : Type 0 where
  pub dirs : Assoc (Assoc Bytes)
  pub backend : Backend

-- `put_object` gets the contents that the reader of the parts gives, and their length.
pub record Library (Backend : Type 0) : Type 0 where
  pub unmarshal : Bytes → Result Upload
  pub md5 : Bytes → Bytes
  pub hex : Bytes → String
  pub put_object : String → String → Assoc String → Bytes → ℕ → Backend → Result String × Backend
  pub max_part_number : ℕ
  pub no_such_upload : Error
  pub invalid_part : Error
  pub invalid_part_order : Error
  pub incomplete_body : Error

-- How the operating system answers in one call; `none` is success. `temporary` is the name that
-- CreateTemp picks, and a removal that fails leaves some files.
pub record Steps : Type 0 where
  pub read : String → Option Error
  pub create_temp : Option Error
  pub temporary : String
  pub copy : Option Error
  pub close : Option Error
  pub rename_part : Option Error
  pub removes_temp : Bool
  pub rename_dir : Option Error
  pub remains : Option (Error × Assoc Bytes)

-- The result of reading a file, with os.IsNotExist apart.
pub data Found : Type 0 where
  missing : Found
  failed : Error → Found
  contents : Bytes → Found

abbrev pub alphabet : ℕ → Bool
alphabet c = (leb b'A' c && leb c b'Z') || (leb b'2' c && leb c b'7')

-- validMultipartUploadID
unfoldable pub valid_multipart_upload_id : String → Bool
valid_multipart_upload_id id = not (id =ˢ "") && trim alphabet id =ˢ ""

abbrev zeros : ℕ → String
zeros n =
    if ltb n 10
    then "0000"
    else (if ltb n 100
        then "000"
        else (if ltb n 1000 then "00" else (if ltb n 10000 then "0" else "")))

-- multipartPartName
unfoldable pub multipart_part_name : ℕ → String
multipart_part_name number = zeros number <> (decimal number <> ".part")

abbrev pub quote : String → String
quote s = "\"" <> (s <> "\"")

abbrev pub is_quote : ℕ → Bool
is_quote c = c == b'"'

-- A part that CompleteMultipartUpload is asked for.
pub record CompletedPart : Type 0 where
  pub number : ℕ
  pub etag : String

module _ {Backend : Type 0} (lib : Library Backend) (o : Steps) where
  abbrev pub found_file : String → Option Bytes → Found
  found_file name none = missing
  found_file name (some data_of) = answer (o.read name)
    where
      answer : Option Error → Found
      answer none = contents data_of
      answer (some e) = failed e

  abbrev pub found_in : String → Option (Assoc Bytes) → Found
  found_in name none = missing
  found_in name (some dir) = found_file name (lookup name dir)

  unfoldable pub read_file : Storage Backend → String → String → Found
  read_file s id name = found_in name (lookup id s.dirs)

  abbrev pub loaded : String → String → Found → Result Upload
  loaded bucket object missing = err lib.no_such_upload
  loaded bucket object (failed e) = err e
  loaded bucket object (contents text) = do
    upload ← lib.unmarshal text
    if not (upload.bucket =ˢ bucket) || not (upload.object =ˢ object)
        then err lib.no_such_upload
        else ok upload

  -- multipartUpload, with readMultipartUpload
  unfoldable pub multipart_upload : Storage Backend → String → String → String → Result Upload
  multipart_upload s bucket object id =
      if valid_multipart_upload_id id
      then loaded bucket object (read_file s id "upload.json")
      else err lib.no_such_upload

  abbrev pub etag_of : Bytes → String
  etag_of part = quote (lib.hex (lib.md5 part))

  -- The checks on the order of the parts, behind a part with the number `last`.
  unfoldable pub check_order : ℕ → List CompletedPart → Result (Unit {0})
  check_order last [] = ok tt
  check_order last (part ∷ parts) =
      let rest = check_order part.number parts in
      if leb part.number 0 || leb part.number last then err lib.invalid_part_order else rest

  abbrev pub matched : CompletedPart → Found → Result Bytes
  matched part missing = err lib.invalid_part
  matched part (failed e) = err e
  matched part (contents found) =
      if trim is_quote (etag_of found) =ˢ trim is_quote part.etag
      then ok found
      else err lib.invalid_part

  -- The loop over the requested parts.
  unfoldable pub find_parts : Storage Backend → String → List CompletedPart → Result (List Bytes)
  find_parts s id [] = ok []
  find_parts s id (part ∷ parts) = do
    found ← matched part (read_file s id (multipart_part_name part.number))
    rest ← find_parts s id parts
    ok (found ∷ rest)

  abbrev pub concat : List Bytes → Bytes
  concat [] = []
  concat (part ∷ parts) = part ++ concat parts

  abbrev pub total_size : List Bytes → ℕ
  total_size [] = 0
  total_size (part ∷ parts) = length part + total_size parts

  abbrev pub digests : List Bytes → Bytes
  digests [] = []
  digests (part ∷ parts) = lib.md5 part ++ digests parts
