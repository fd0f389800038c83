-- ===== src/Startup.antt =====
-- app/sms_relay/db.py, init_db: what becomes of the messages table of an older version of the service.
use sms_relay.Common.{
  Bool, Option, none, some, List, [], ◌∷◌, ◌++◌, map, if◌then◌else◌, any, Text, text, str_eq, lower,
}
use sms_relay.Common.Result.{Fault, statement_error, Result, ok, raise, ◌>>=◌}
pub mod Engine
pub mod Upgrades

-- A table of any version: the names of its columns, and of each row its cells, by column.
pub record Table : Type 0 where
  pub columns : List Text
  pub rows : List (List (Text × Option Text))

unfoldable pub has_column : Text → List Text → Bool
has_column name columns = any (str_eq name) columns

-- ALTER TABLE ... ADD COLUMN: the cells of the rows get the default. SQLite ignores case here.
unfoldable pub add_column : Text → Option Text → Table → Result Table
unfolding has_column
add_column name default t =
    if has_column (lower name) (map lower t.columns)
    then raise statement_error
    else ok (record {
      columns = t.columns ++ name ∷ [];
      rows = map (λ cells. cells ++ (name, default) ∷ []) t.rows;
    })

-- `if name not in columns`
unfoldable pub ensure_column : List Text → Text → Option Text → Table → Result Table
unfolding has_column add_column
ensure_column columns name default t =
    if has_column name columns then ok t else add_column name default t

-- `create_all`: None is a database without the table, and `created` is what it makes then.
abbrev pub table_of : (created : Table) → Option Table → Table
table_of created none = created
table_of created (some t) = t

-- `init_db`
unfoldable pub init_db : (created : Table) → Option Table → Result Table
unfolding ensure_column
init_db created found = do
  let table : Table = table_of created found
  first ← ensure_column table.columns (text "transport") (some (text "sms")) table
  topics ← ensure_column table.columns (text "notification_topic") none first
  ensure_column table.columns (text "notification_priority") (some (text "3")) topics
