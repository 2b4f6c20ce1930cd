-- ===== src/Migration/Sync.antt =====
-- resource/migration/sync.go: the translations of the descriptions of migrations.

pub mod Described
use kratos_core.Prelude.{
  String, Bool, true, false, ◌&&◌, Option, none, some, List, [], ◌∷◌, ◌≡◌, ◌↔◌, ap, arith,
  if◌then◌else◌,
}
use Prim.Native.String.{◌++◌ as str_append}
use kratos_core.Prelude.Int.{ℤ, pos}
use kratos_core.Prelude.Eq.{Eq, ◌==◌, ==_iff, string_eq, int_eq, lookup, insert}
use kratos_core.Prelude.Error.{Error, Result, ok, err, plain, wrapped}

pub record MigrationDescriptionKey : Type 0 where
  pub module_name : String
  pub data_source : String
  pub version : String

pub record I18nRecordKey : Type 0 where
  pub target_id : ℤ
  pub locale : String

pub record MigrationHistory : Type 0 where
  pub id : ℤ
  pub key : MigrationDescriptionKey

-- A row of the translations of descriptions; the target key is the same in all of them.
pub record MigrationTranslation : Type 0 where
  pub id : ℤ
  pub target_id : ℤ
  pub locale : String
  pub name : String

pub record DescriptionTranslation : Type 0 where
  pub key : MigrationDescriptionKey
  pub locale : String
  pub description : String

pub description_key_lem :
    (x y : MigrationDescriptionKey)
    → ((x.module_name == y.module_name
          && (x.data_source == y.data_source && x.version == y.version))
        ≡ true)
      ↔ (x ≡ y)
description_key_lem x y = ground (
  arith,
  ==_iff x.module_name y.module_name,
  ==_iff x.data_source y.data_source,
  ==_iff x.version y.version,
)

instance abbrev pub description_key_eq : Eq MigrationDescriptionKey
description_key_eq = record {
  equal = λ x y.
      x.module_name == y.module_name && (x.data_source == y.data_source && x.version == y.version);
  decides = description_key_lem;
}

pub record_key_lem :
    (x y : I18nRecordKey) → ((x.target_id == y.target_id && x.locale == y.locale) ≡ true) ↔ (x ≡ y)
record_key_lem x y = ground (arith, ==_iff x.target_id y.target_id, ==_iff x.locale y.locale)

instance abbrev pub record_key_eq : Eq I18nRecordKey
record_key_eq = record {
  equal = λ x y. x.target_id == y.target_id && x.locale == y.locale;
  decides = record_key_lem;
}

pub data Write : Type 0 where
  create save : MigrationTranslation → Write

-- The default database in the transaction, by the writes so far, newest first: `Find` of the two
-- tables, `Create` with the identifier it gives, `Save`, and the commit.
pub record Database : Type 0 where
  pub find_histories : Result (List MigrationHistory)
  pub find_translations : Result (List MigrationTranslation)
  pub created : List Write → MigrationTranslation → Result ℤ
  pub saved : List Write → MigrationTranslation → Option Error
  pub commit : List Write → Option Error

-- The map `existing`, and the writes.
pub record State : Type 0 where
  pub existing : List (I18nRecordKey × MigrationTranslation)
  pub writes : List Write

abbrev pub row_key : MigrationTranslation → I18nRecordKey
row_key r = record { target_id = r.target_id; locale = r.locale }

-- The loop over the histories; the last one of a key stays.
unfoldable pub history_ids :
    List MigrationHistory → List (MigrationDescriptionKey × ℤ) → List (MigrationDescriptionKey × ℤ)
unfolding insert
history_ids [] ids = ids
history_ids (h ∷ rest) ids = history_ids rest (insert h.key h.id ids)

-- The loop over the rows.
unfoldable pub existing_rows :
    List MigrationTranslation
    → List (I18nRecordKey × MigrationTranslation)
    → List (I18nRecordKey × MigrationTranslation)
unfolding insert
existing_rows [] existing = existing
existing_rows (r ∷ rest) existing = existing_rows rest (insert (row_key r) r existing)

abbrev id_or_zero : Option ℤ → ℤ
id_or_zero none = pos 0
id_or_zero (some id) = id

-- A missing key gives 0.
abbrev pub history_id : List (MigrationDescriptionKey × ℤ) → DescriptionTranslation → ℤ
history_id ids t = id_or_zero (lookup t.key ids)

abbrev pub translation_key :
    List (MigrationDescriptionKey × ℤ) → DescriptionTranslation → I18nRecordKey
translation_key ids t = record { target_id = history_id ids t; locale = t.locale }

abbrev pub new_row : I18nRecordKey → DescriptionTranslation → MigrationTranslation
new_row key t = record {
  id = pos 0;
  target_id = key.target_id;
  locale = t.locale;
  name = t.description;
}

abbrev no_history : MigrationDescriptionKey → String
no_history key = str_append "迁移记录不存在: " (
    str_append key.module_name
      (str_append "/" (str_append key.data_source (str_append "/" key.version))))

module _ (db : Database) (ids : List (MigrationDescriptionKey × ℤ)) where
  abbrev pub after_create : State → I18nRecordKey → MigrationTranslation → Result ℤ → Result State
  after_create s key r (err e) = err (wrapped "写入迁移说明译文失败" e)
  after_create s key r (ok id) = ok (record {
    existing = insert key (record r { id = id }) s.existing;
    writes = create (record r { id = id }) ∷ s.writes;
  })

  abbrev pub after_save : State → I18nRecordKey → MigrationTranslation → Option Error → Result State
  after_save s key r (some e) = err (wrapped "更新迁移说明译文失败" e)
  after_save s key r none =
      ok (record { existing = insert key r s.existing; writes = save r ∷ s.writes })

  abbrev pub sync_record :
      DescriptionTranslation → State → I18nRecordKey → Option MigrationTranslation → Result State
  sync_record t s key none =
      after_create s key (new_row key t) (db.created s.writes (new_row key t))
  sync_record t s key (some r) =
      if r.name == t.description
      then ok s
      else after_save s key (record r { name = t.description })
          (db.saved s.writes (record r { name = t.description }))

  -- The body of the loop over the translations.
  unfoldable pub sync_translation : DescriptionTranslation → State → Result State
  unfolding insert
  sync_translation t s =
      if history_id ids t == pos 0
      then err (plain (no_history t.key))
      else sync_record t s (translation_key ids t) (lookup (translation_key ids t) s.existing)

  abbrev pub and_then : Result State → (State → Result State) → Result State
  and_then (err e) f = err e
  and_then (ok s) f = f s

  unfoldable pub sync_translations : List DescriptionTranslation → State → Result State
  unfolding sync_translation
  sync_translations [] s = ok s
  sync_translations (t ∷ rest) s = and_then (sync_translation t s) (λ u. sync_translations rest u)

module _ (db : Database) where
  abbrev pub committed : List Write → Option Error → Option Error × List Write
  committed writes (some e) = (some (wrapped "同步迁移说明译文" e), [])
  committed writes none = (none, writes)

  abbrev pub finished : Result State → Option Error × List Write
  finished (err e) = committed [] (some e)
  finished (ok s) = committed s.writes (db.commit s.writes)

  abbrev pub with_rows :
      List DescriptionTranslation
      → List (MigrationDescriptionKey × ℤ)
      → Result (List MigrationTranslation)
      → Result State
  with_rows translations ids (err e) = err (wrapped "读取迁移说明译文失败" e)
  with_rows translations ids (ok rows) =
      sync_translations db ids translations
        (record { existing = existing_rows rows []; writes = [] })

  abbrev pub with_histories :
      List DescriptionTranslation → Result (List MigrationHistory) → Result State
  with_histories translations (err e) = err (wrapped "读取迁移记录失败" e)
  with_histories translations (ok histories) =
      with_rows translations (history_ids histories []) db.find_translations

-- `syncDescriptionTranslations`: the error, and the writes that are committed.
unfoldable pub sync_description_translations :
    Option Database → List DescriptionTranslation → Option Error × List Write
unfolding sync_translations history_ids existing_rows
sync_description_translations central [] = (none, [])
sync_description_translations none (t ∷ rest) = (some (plain "迁移说明翻译需要默认数据库客户端"), [])
sync_description_translations (some db) (t ∷ rest) =
    finished db (with_histories db (t ∷ rest) db.find_histories)
