-- ===== src/Migration/Files.antt =====
-- resource/migration/files.go: `ReadFiles`. Texts are code points, and the content of a file is its
-- bytes.
pub mod Checked
use kratos_core.Prelude.{
  ℕ, zero, suc, String, Bool, true, false, not, ◌&&◌, ◌||◌, Option, none, some, List, [], ◌∷◌,
  length, nat_beq, if◌then◌else◌,
}
use Prim.Native.String.{◌++◌ as str_append}
use kratos_core.Prelude.Eq.{◌==◌, string_eq}
use kratos_core.Prelude.Error.{Error, Result, ok, err, plain, wrapped}
use kratos_core.Prelude.Text.{split, trim_prefix, has_prefix}
use kratos_core.Migration.Strip.{strip_sql_comments}

pub record FileReference : Type 0 where
  pub path : String
  pub sha256 : String

pub record FileContent : Type 0 where
  pub path : String
  pub content : List ℕ

-- A registered module: its name, the root of its files, and `fs.ReadFile`.
pub record Source : Type 0 where
  pub name : String
  pub path : String
  pub read_file : String → Result (List ℕ)

-- `json.Unmarshal` of references, `path.Clean`, `fs.ValidPath`, and of kratos-kit the name of the
-- default data source and the digest of a file.
pub record Outside : Type 0 where
  pub unmarshal : String → Result (List FileReference)
  pub clean : String → String
  pub valid_path : String → Bool
  pub default_target : String
  pub digest : String → List ℕ → String

-- strings.HasSuffix, for `path.Ext`
unfoldable pub has_suffix : String → String → Bool
has_suffix String.[] p = p == ""
has_suffix (String.◌∷◌ c s) p = let later = has_suffix s p in String.◌∷◌ c s == p || later

-- The version and the data source of a path of two to four parts.
abbrev pub parts_version : List String → Option String
parts_version (version ∷ b ∷ []) = some version
parts_version (version ∷ b ∷ c ∷ []) = some version
parts_version (version ∷ b ∷ c ∷ d ∷ []) = some version
parts_version _ = none

abbrev pub parts_target : String → List String → Option String
parts_target default (version ∷ b ∷ c ∷ []) = some default
parts_target default (version ∷ b ∷ c ∷ d ∷ []) = some c
parts_target default _ = none

abbrev pub is_version : String → Option String → Bool
is_version version none = false
is_version version (some v) = v == version

abbrev pub is_target : String → Option String → Bool
is_target data_source none = true
is_target data_source (some target) = target == data_source

abbrev with_path : String → String → Error
with_path text path = plain (str_append text path)

abbrev pub or_all : List ℕ → Option (List ℕ) → List ℕ
or_all content none = content
or_all content (some stripped) = stripped

-- What the migrations execute of a file.
abbrev pub executed : String → List ℕ → List ℕ
executed path content =
    if has_suffix path ".sql" then or_all content (strip_sql_comments content) else content

module _ (o : Outside) (version data_source : String) (s : Source) where
  abbrev pub root : String
  root = o.clean s.path

  abbrev pub in_root : String → Bool
  in_root path = root == "." || has_prefix path (str_append root "/")

  abbrev pub relative : String → String
  relative path = if root == "." then path else trim_prefix path (str_append root "/")

  abbrev pub digested : FileReference → List ℕ → Result FileContent
  digested file content =
      if o.digest file.path content == file.sha256
      then ok (record { path = file.path; content = content })
      else err (with_path "迁移文件内容与记录不一致: " file.path)

  abbrev pub read : FileReference → Result (List ℕ) → Result FileContent
  read file (err e) = err (wrapped (str_append "读取迁移文件 " file.path) e)
  read file (ok content) = digested file (executed file.path content)

  -- The body of the loop over the files.
  abbrev pub check_parts : FileReference → List String → Result FileContent
  check_parts file parts =
      if not (o.valid_path file.path) || not (is_version version (parts_version parts))
      then err (with_path "迁移文件路径无效: " file.path)
      else if not (is_target data_source (parts_target o.default_target parts))
      then err (with_path "迁移文件数据源不匹配: " file.path)
      else read file (s.read_file file.path)

  unfoldable pub read_reference : FileReference → Result FileContent
  read_reference file =
      if in_root file.path
      then check_parts file (split b'/' (relative file.path))
      else err (with_path "迁移文件超出资源目录: " file.path)

  abbrev pub cons_file : Result FileContent → Result (List FileContent) → Result (List FileContent)
  cons_file (err e) later = err e
  cons_file (ok c) (err e) = err e
  cons_file (ok c) (ok later) = ok (c ∷ later)

  unfoldable pub read_references : List FileReference → Result (List FileContent)
  unfolding read_reference
  read_references [] = ok []
  read_references (file ∷ rest) = cons_file (read_reference file) (read_references rest)

module _ (o : Outside) (sources : List Source) (module_name version data_source : String) where
  unfoldable pub read_source : List Source → List FileReference → Result (List FileContent)
  unfolding read_references
  read_source [] files = err (with_path "迁移模块未注册: " module_name)
  read_source (s ∷ rest) files =
      if s.name == module_name
      then read_references o version data_source s files
      else read_source rest files

  abbrev pub read_parsed : Result (List FileReference) → Result (List FileContent)
  read_parsed (err e) = err (wrapped "迁移记录不是文件引用" e)
  read_parsed (ok []) = ok []
  read_parsed (ok (file ∷ files)) = read_source sources (file ∷ files)

  -- `ReadFiles`
  unfoldable pub read_files : String → Result (List FileContent)
  unfolding read_source
  read_files references = if references == "" then ok [] else read_parsed (o.unmarshal references)
