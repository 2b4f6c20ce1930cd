-- ===== src/Migration/Files/Checked.antt =====
-- What `ReadFiles` has checked of the files that it returns.
use kratos_core.Prelude.{ℕ, String, ◌≡◌, true, List, [], ◌∷◌, In}
use kratos_core.Prelude.Eq.{string_eq}
use kratos_core.Prelude.Error.{ok}
use kratos_core.Prelude.Text.{split}
use kratos_core.Migration.Files.{
  FileReference, FileContent, Source, Outside, parts_version, parts_target, is_version, is_target,
  executed, in_root, relative,
}

module _ (o : Outside) (version data_source : String) where
  -- A file of a source, as it was referred to and as it is returned.
  pub record IsChecked (s : Source) (file : FileReference) (c : FileContent) : Type 0 where
    pub same_path : c.path ≡ file.path
    pub inside : in_root o version data_source s file.path ≡ true
    pub valid : o.valid_path file.path ≡ true
    pub of_version :
        is_version version (parts_version (split b'/' (relative o version data_source s file.path)))
        ≡ true
    pub of_target :
        is_target data_source
          (parts_target o.default_target (split b'/' (relative o version data_source s file.path)))
        ≡ true
    pub stored :
        (content : List ℕ) × (s.read_file file.path ≡ ok content)
        × (c.content ≡ executed file.path content)
    pub unchanged : o.digest file.path c.content ≡ file.sha256

  abbrev AllChecked : Source → List FileReference → List FileContent → Type 0
  AllChecked s [] [] = Unit
  AllChecked s (file ∷ files) (c ∷ contents) = IsChecked s file c × AllChecked s files contents
  AllChecked s [] (c ∷ contents) = ⊥
  AllChecked s (file ∷ files) [] = ⊥

  -- A source that is asked for by its name, with what `ReadFiles` returns for it.
  pub record Read (module_name : String) (sources : List Source) (files : List FileReference)
      (l : List FileContent) : Type 0 where
    pub source : Source
    pub registered : In source sources
    pub named : source.name ≡ module_name
    pub checked : AllChecked source files l
