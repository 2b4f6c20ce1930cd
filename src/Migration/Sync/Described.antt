-- ===== src/Migration/Sync/Described.antt =====
-- What the table of translations holds after a synchronisation.
use kratos_core.Prelude.{String, ◌≡◌, Option, none, some, List, [], ◌∷◌, if◌then◌else◌}
use kratos_core.Prelude.Int.{ℤ}
use kratos_core.Prelude.Eq.{◌==◌, string_eq, int_eq, lookup}
use kratos_core.Migration.Sync.{
  MigrationDescriptionKey, I18nRecordKey, MigrationTranslation, DescriptionTranslation,
  description_key_eq, record_key_eq, Write, create, save, Database, State, row_key, translation_key,
}

abbrev row_name : Option MigrationTranslation → Option String
row_name none = none
row_name (some r) = some r.name

-- The name that a map of rows has for a key.
abbrev pub name_at : I18nRecordKey → List (I18nRecordKey × MigrationTranslation) → Option String
name_at k rows = row_name (lookup k rows)

abbrev pub row_of : Write → MigrationTranslation
row_of (create r) = r
row_of (save r) = r

-- The name for a key in the table, where writes, newest first, are made over what it had.
abbrev pub written : I18nRecordKey → List Write → Option String → Option String
written k [] before = before
written k (w ∷ ws) before =
    if row_key (row_of w) == k then some (row_of w).name else written k ws before

-- The last description that a list of translations has for a key, or else what there was.
abbrev pub described :
    List (MigrationDescriptionKey × ℤ)
    → I18nRecordKey
    → List DescriptionTranslation
    → Option String
    → Option String
described ids k [] before = before
described ids k (t ∷ rest) before =
    described ids k rest (if translation_key ids t == k then some t.description else before)

-- Each row stands in the map under its key.
abbrev IsKeyed : List (I18nRecordKey × MigrationTranslation) → Type 0
IsKeyed rows =
    (k : I18nRecordKey) (r : MigrationTranslation) → lookup k rows ≡ some r → row_key r ≡ k

module _ (db : Database) (ids : List (MigrationDescriptionKey × ℤ))
    (start : List (I18nRecordKey × MigrationTranslation)) where
  -- The writes over the rows at the start are what the map says.
  record IsSynced (s : State) : Type 0 where
    keyed : IsKeyed s.existing
    same : (k : I18nRecordKey) → written k s.writes (name_at k start) ≡ name_at k s.existing

  record Steps (t : DescriptionTranslation) (s u : State) : Type 0 where
    synced : IsSynced u
    names :
        (k : I18nRecordKey)
        → name_at k u.existing
          ≡ (if translation_key ids t == k then some t.description else name_at k s.existing)
