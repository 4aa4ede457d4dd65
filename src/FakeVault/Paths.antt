-- ===== src/FakeVault/Paths.antt =====
-- store.go: cluster IDs, secret paths and the names that are made of them.
pub mod Cleaning
use podplane.Base.{
  ℕ, Bool, true, false, ◌||◌, String, ◌<>◌, ◌=ˢ◌, ◌==◌, if◌then◌else◌, List, [], ◌∷◌, any, Result,
  ok, err, ◌>>=◌, ◌>>◌, reject, errorf, str,
}
use podplane.Base.Strings.{trim, trim_space, trim_prefix, is_slash, contains_any, split}

-- The set "/\" of strings.ContainsAny.
abbrev pub is_separator : ℕ → Bool
is_separator c = c == b'/' || c == 0x5c

-- CleanPath
unfoldable pub clean_path : String → String
clean_path path = trim is_slash (trim_prefix (trim_prefix (trim_space path) "/") "v1/")

-- cleanClusterID
unfoldable pub clean_cluster_id : String → Result String
clean_cluster_id given = do
  let id = trim_space given
  reject (id =ˢ "") (errorf "cluster ID is required" [])
  reject (id =ˢ "." || id =ˢ ".." || contains_any is_separator id)
      (errorf "invalid cluster ID %q" (str id ∷ []))
  ok id

abbrev pub bad_segment : String → Bool
bad_segment segment =
    segment =ˢ "" || segment =ˢ "." || segment =ˢ ".." || contains_any is_separator segment

-- cleanClusterPath
unfoldable pub clean_cluster_path : String → String → Result (String × String)
unfolding clean_cluster_id clean_path
clean_cluster_path given raw = do
  id ← clean_cluster_id given
  let path = clean_path raw
  reject (path =ˢ "") (errorf "secret path is required" [])
  reject (any bad_segment (split b'/' path)) (errorf "invalid secret path %q" (str path ∷ []))
  ok (id, path)

-- vaultKeyName
unfoldable pub vault_key_name : String → String
vault_key_name id = "dev.podplane.local." <> (id <> ".fakevault.key")

-- clusterDir; `root` is a clean directory name other than "/", so filepath.Join puts "/" between.
unfoldable pub cluster_dir : String → String → String
cluster_dir root id = root <> ("/" <> (id <> "/fakevault"))

-- secretFilePath
unfoldable pub secret_file_path : String → String → String → String
unfolding cluster_dir
secret_file_path root id path = cluster_dir root id <> ("/" <> (path <> ".json"))
