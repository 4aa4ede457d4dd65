-- ===== src/FakeVault/Unwritten.antt =====
-- store.go: what a write that fails leaves behind it.
use podplane.Base.{
  true, false, String, [], Option, none, some, err, Error, ◌≡◌, refl, sym, ap, ◌∙◌, arith, ◌=ˢ◌,
  eq_iff, ◌⊎◌, inl, inr, Bool-cases, Option-cases, is_some,
}
use podplane.Base.Assoc.{lookup, insert, lookup-insert, lookup-without}
use podplane.Base.Exec.{◌>>=◌}
use podplane.FakeVault.Types.{Bytes, SecretFile, FileStore, Codec, World}
use podplane.FakeVault.Store.{
  write_file, write_file_atomic, install, deferred, relabel, put_temporary, removed,
  temporary_content,
}
use podplane.FakeVault.Files.{Disk, disk, SyncsDirectory}

-- The root and the files are as they were, and so are the temporary files, but for the one of this
-- write where it could not be removed.
pub record Unwritten (w : World) (d d' : Disk) : Type 0 where
  pub root : d'.root ≡ d.root
  pub files : d'.files ≡ d.files
  pub left :
      (name : String)
      → (lookup name d'.temporaries ≡ lookup name d.temporaries)
        ⊎ ((name ≡ w.write_file.temporary) × (is_some w.write_file.remove ≡ true))

unchanged :
    (c : Codec) (w : World) (id path : String) (file : SecretFile) (s : FileStore) (e : Error)
    → SyncsDirectory c w
    → (write_file c w id path file s).0 ≡ err e
    → ((write_file c w id path file s).1.root ≡ s.root)
      × ((write_file c w id path file s).1.files ≡ s.files)
unfolding write_file write_file_atomic install deferred relabel ◌>>=◌
unchanged c w id path file s e syncs failed = (ground arith, ground arith)

module _ (c : Codec) (w : World) where
  install-others :
      (name : String) (bytes : Bytes) (s : FileStore) (other : String)
      → (w.write_file.temporary =ˢ other) ≡ false
      → lookup other (install c w name bytes s).1.temporaries ≡ lookup other s.temporaries
  unfolding install ◌>>=◌
  install-others name bytes s other apart =
      let temporary = w.write_file.temporary in
      let content = temporary_content c w w.write_file.write bytes in
      ground (
        arith,
        lookup-insert temporary other content s.temporaries,
        lookup-without temporary other (insert temporary content s.temporaries),
      )

  -- The deferred removal, behind steps that change only the temporary file.
  removed-left :
      (remove : Option Error) (s t : FileStore) (name : String)
      → w.write_file.remove ≡ remove
      → lookup w.write_file.temporary s.temporaries ≡ none
      → ((w.write_file.temporary =ˢ name) ≡ false
          → lookup name t.temporaries ≡ lookup name s.temporaries)
      → (lookup name (removed c w remove t).temporaries ≡ lookup name s.temporaries)
        ⊎ ((name ≡ w.write_file.temporary) × (is_some w.write_file.remove ≡ true))
  removed-left remove s t name ended fresh others =
      elim (Bool-cases (w.write_file.temporary =ˢ name)) [
        | inl same ↦ this remove ended ((eq_iff _ _).0 same) same
        | inr apart ↦ inl (another remove apart ∙ others apart)
      ]
    where
      another :
          (remove : Option Error)
          → (w.write_file.temporary =ˢ name) ≡ false
          → lookup name (removed c w remove t).temporaries ≡ lookup name t.temporaries
      another none apart = rw (lookup-without w.write_file.temporary name t.temporaries, apart) refl
      another (some e) apart = refl

      this :
          (remove : Option Error)
          → w.write_file.remove ≡ remove
          → w.write_file.temporary ≡ name
          → (w.write_file.temporary =ˢ name) ≡ true
          → (lookup name (removed c w remove t).temporaries ≡ lookup name s.temporaries)
            ⊎ ((name ≡ w.write_file.temporary) × (is_some w.write_file.remove ≡ true))
      this none ended same equal = inl (
          (lookup-without w.write_file.temporary name t.temporaries ∙ rw equal refl)
          ∙ sym (ap (λ n. lookup n s.temporaries) (sym same) ∙ fresh))
      this (some e) ended same equal = inr (sym same, rw ended refl)

  write_file_atomic-left :
      (name : String) (bytes : Bytes) (s : FileStore) (other : String)
      → lookup w.write_file.temporary s.temporaries ≡ none
      → (lookup other (write_file_atomic c w name bytes s).1.temporaries
          ≡ lookup other s.temporaries)
        ⊎ ((other ≡ w.write_file.temporary) × (is_some w.write_file.remove ≡ true))
  unfolding write_file_atomic install deferred ◌>>=◌
  write_file_atomic-left name bytes s other fresh = elim (Option-cases w.write_file.mkdir) [
    | inr (e, failed) ↦ inl (rw failed refl)
    | inl made ↦ elim (Option-cases w.write_file.create_temp) [
      | inr (e, failed) ↦ inl (rw (made, failed) refl)
      | inl created ↦
          let t = put_temporary c w [] s in
          rw (made, created)
            (removed-left w.write_file.remove s (install c w name bytes t).1 other refl fresh
              (λ apart.
                install-others name bytes t other apart
                ∙ (lookup-insert w.write_file.temporary other [] s.temporaries ∙ rw apart refl)))
    ]
  ]

  pub write_file-err :
      (id path : String) (file : SecretFile) (s : FileStore) (e : Error)
      → SyncsDirectory c w
      → lookup w.write_file.temporary s.temporaries ≡ none
      → (write_file c w id path file s).0 ≡ err e
      → Unwritten w (disk s) (disk (write_file c w id path file s).1)
  unfolding write_file relabel ◌>>=◌
  write_file-err id path file s e syncs fresh failed = record {
    root = same.0;
    files = same.1;
    left = λ other. write_file_atomic-left _ _ s other fresh;
  }
    where
      same :
          ((write_file c w id path file s).1.root ≡ s.root)
          × ((write_file c w id path file s).1.files ≡ s.files)
      same = unchanged c w id path file s e syncs failed
