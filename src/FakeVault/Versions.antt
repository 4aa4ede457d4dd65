-- ===== src/FakeVault/Versions.antt =====
-- The version of a secret: what a conditional write checks, and what it leaves.
use native.Mathlib.Numerals.{add-one}
use podplane.Base.{
  ℕ, ◌+◌, ◌-◌, ◌^◌, ◌<◌, ℤ, pos, negsuc, String, Option, none, some, ok, ◌≡◌, ◌≢◌, refl, true, ◌∙◌,
  ap, sym, subst, arith, ok-injective,
}
use podplane.FakeVault.Types.{Values, FileStore, Codec, World, SecretFile}
use podplane.FakeVault.Store.{read_file, effective_version}
use podplane.FakeVault.Operations.{current_version, version_after, matches, compare_and_set_secret}
use podplane.FakeVault.Keys.{FillsKey}
use podplane.FakeVault.Laws.{CodecLaws, read_file-decoded}
use podplane.FakeVault.Secrets.{Written, set_secret_at-run}
use podplane.FakeVault.Stored.{Written-on_disk, Written-IsEncodable}

-- The next version is the successor, but for the largest int, after which it is 1 again.
next_version_lem :
    (current : Option SecretFile)
    → effective_version (version_after current) ≢ current_version current
next_version_lem none = omega arith
next_version_lem (some file) = ground arith

matches_unique : (v : ℤ) (m n : ℕ) → matches (some v) m ≡ true → matches (some v) n ≡ true → m ≡ n
matches_unique (pos k) m n h h' = ground arith
matches_unique (negsuc k) m n h h' = ground arith

matches_self : (n : ℕ) → matches (some (pos n)) n ≡ true
matches_self n = ground arith

eq-pos_of_matches : (v : ℤ) (n : ℕ) → matches (some v) n ≡ true → v ≡ pos n
eq-pos_of_matches (pos k) n h = ground arith
eq-pos_of_matches (negsuc k) n h = ground arith

effective_version-pos : (n : ℕ) → effective_version (pos (n + 1)) ≡ n + 1
effective_version-pos n = rw add-one refl

version_after_lem :
    (current : Option SecretFile) (n : ℕ)
    → current_version current ≡ n
    → n < 2 ^ 63 - 1
    → effective_version (version_after current) ≡ n + 1
version_after_lem none n h small = omega arith
version_after_lem (some file) n h small = rw h (ground (arith, effective_version-pos n))

module _ (c : Codec) (laws : CodecLaws c) where
  -- The file that a second write finds is the one that the first left.
  found_after :
      (w w' : World) (cluster raw : String) (values values' : Values) (v v' : Option ℤ)
      (s s' s'' : FileStore) (x : Written c w cluster raw values v s s')
      (y : Written c w' cluster raw values' v' s' s'')
      → current_version y.current ≡ effective_version (version_after x.current)
  found_after w w' cluster raw values values' v v' s s' s'' x y =
      let same : (x.id, x.path) ≡ (y.id, y.path) = ok-injective (sym x.clean ∙ y.clean) in
      let found =
        subst (λ (p : String × String). (read_file c w' p.0 p.1 s').0 ≡ ok y.current) (sym same)
          y.found in
      ap current_version (
        read_file-decoded c w' x.id x.path s' _ _ y.current
          (Written-on_disk c laws w cluster raw values v s s' x)
          (laws.file_round_trip _ (Written-IsEncodable c laws w cluster raw values v s s' x)) found)

  -- If the codec keeps what it is documented to keep and the random sources fill the whole
  -- key, then of two conditional writes for one version at one path, one after the other, the
  -- second cannot report success when the first did.
  pub compare_and_set_once :
      (w w' : World) (cluster raw : String) (version : ℤ) (values values' : Values)
      (s s' s'' : FileStore)
      → FillsKey w
      → FillsKey w'
      → compare_and_set_secret c w cluster raw version values s ≡ (ok true, s')
      → compare_and_set_secret c w' cluster raw version values' s' ≢ (ok true, s'')
  unfolding compare_and_set_secret
  compare_and_set_once w w' cluster raw version values values' s s' s'' fills fills' first second =
      let x = set_secret_at-run c w cluster raw values (some version) s s' fills first in
      let y = set_secret_at-run c w' cluster raw values' (some version) s' s'' fills' second in
      let found = found_after w w' cluster raw values values' _ _ s s' s'' x y in
      next_version_lem x.current (sym found ∙ matches_unique version _ _ y.matched x.matched)

  -- If the codec keeps what it is documented to keep and the random sources fill the whole
  -- key, then after a conditional write for a version below the largest 64-bit int that
  -- reports success, a second conditional write at the path reports success only if it is for
  -- that version and one more.
  pub version_after_write :
      (w w' : World) (cluster raw : String) (version : ℕ) (next : ℤ) (values values' : Values)
      (s s' s'' : FileStore)
      → FillsKey w
      → FillsKey w'
      → version < 2 ^ 63 - 1
      → compare_and_set_secret c w cluster raw (pos version) values s ≡ (ok true, s')
      → compare_and_set_secret c w' cluster raw next values' s' ≡ (ok true, s'')
      → next ≡ pos (version + 1)
  unfolding compare_and_set_secret
  version_after_write w w' cluster raw version next values values' s s' s'' fills fills' small first
        second =
      let x = set_secret_at-run c w cluster raw values (some (pos version)) s s' fills first in
      let y = set_secret_at-run c w' cluster raw values' (some next) s' s'' fills' second in
      let found = found_after w w' cluster raw values values' _ _ s s' s'' x y in
      eq-pos_of_matches next _ y.matched
      ∙ ap pos (
          found
          ∙ version_after_lem x.current version
              (matches_unique (pos version) _ _ x.matched (matches_self version)) small)
