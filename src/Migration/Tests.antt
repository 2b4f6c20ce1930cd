-- ===== src/Migration/Tests.antt =====
-- Scripts with comments, without, and with a comment alone on its line.
use kratos_core.Prelude.{ℕ, ◌≤◌, ◌≡◌, refl, true, none, some, List, [], ◌∷◌, length}
use kratos_core.Migration.Strip.{strip_sql_comments}
use kratos_core.Migration.Strip.Bounds.{strip_sql_comments-Total}
use kratos_core.Prelude.Int.{pos}
use kratos_core.Prelude.Eq.{lookup, insert}
use kratos_core.Prelude.Error.{ok, plain, wrapped}
use kratos_core.Migration.Sync.{
  MigrationDescriptionKey, MigrationHistory, MigrationTranslation, DescriptionTranslation,
  I18nRecordKey, description_key_eq, record_key_eq, Database, sync_translation, sync_translations,
  existing_rows, history_ids, sync_description_translations,
}
use kratos_core.Migration.Files.{FileReference, Source, Outside}

-- "a#b"
abbrev commented : List ℕ
commented = b'a' ∷ b'#' ∷ b'b' ∷ []

strip_sql_comments-Total_example :
    (r : List ℕ) × (strip_sql_comments commented ≡ some r) × (length r ≤ 3)
strip_sql_comments-Total_example = strip_sql_comments-Total commented

-- "a'-'"
abbrev quoted : List ℕ
quoted = b'a' ∷ b'\'' ∷ b'-' ∷ b'\'' ∷ []

-- "a/**/b": the comment between two words leaves nothing in its place.
joined_test :
    strip_sql_comments (b'a' ∷ b'/' ∷ b'*' ∷ b'*' ∷ b'/' ∷ b'b' ∷ []) ≡ some (b'a' ∷ b'b' ∷ [])
unfolding strip_sql_comments
joined_test = refl

abbrev file : FileReference
file = record { path = "m/v1/up.sql"; sha256 = "digest" }

abbrev source : Source
source = record { name = "core"; path = "m"; read_file = λ s. ok commented }

abbrev outside : Outside
outside = record {
  unmarshal = λ s. ok (file ∷ []);
  clean = λ s. s;
  valid_path = λ s. true;
  default_target = "default";
  digest = λ path content. "digest";
}

abbrev v1 : MigrationDescriptionKey
v1 = record { module_name = "core"; data_source = "default"; version = "v1" }

abbrev history : MigrationHistory
history = record { id = pos 7; key = v1 }

-- A row with an older text.
abbrev old : MigrationTranslation
old = record { id = pos 1; target_id = pos 7; locale = "en"; name = "old" }

abbrev database : Database
database = record {
  find_histories = ok (history ∷ []);
  find_translations = ok (old ∷ []);
  created = λ writes r. ok (pos 2);
  saved = λ writes r. none;
  commit = λ writes. none;
}

abbrev english : DescriptionTranslation
english = record { key = v1; locale = "en"; description = "new" }

abbrev key : I18nRecordKey
key = record { target_id = pos 7; locale = "en" }

-- A migration without a history.
unknown_test :
    sync_description_translations (some (record database { find_histories = ok [] })) (english ∷ [])
    ≡ (some (wrapped "同步迁移说明译文" (plain "迁移记录不存在: core/default/v1")), [])
unfolding sync_description_translations sync_translation sync_translations existing_rows history_ids
    lookup insert
unknown_test = refl
