-- ===== src/Migrations.antt =====
-- src/alembic/versions: the migrations of the database as lists of Alembic's operations. Alembic and
-- SQLite are a parameter; the rows that a table holds and the names of constraints are left out.
pub mod Versions
pub mod Models
pub mod Schema
pub mod Downgrades
pub mod Environment
use coffee_shop_api.Prelude.{
  ◌≡◌, String, Bool, true, false, Option, none, some, List, [], ◌∷◌, ◌++◌, map, str_eq, any, select,
  not, if◌then◌else◌,
}

-- `sa.String()` and `sa.VARCHAR()` are one type, and so are `sa.Numeric(10, 2)` and `numeric`.
pub data ColumnType : Type 0 where
  string integer long_text float numeric date_time : ColumnType

-- `has_default` is a server_default of CURRENT_TIMESTAMP.
pub record Column : Type 0 where
  pub name : String
  pub kind : ColumnType
  pub nullable : Bool
  pub has_default : Bool

-- a column, and the table and the column that it references
pub record ForeignKey : Type 0 where
  pub column : String
  pub table : String
  pub key : String

pub record Table : Type 0 where
  pub columns : List Column
  pub primary_key : List String
  pub unique : List String
  pub foreign_keys : List ForeignKey

abbrev pub column : String → ColumnType → Column
column name kind = record { name = name; kind = kind; nullable = false; has_default = false }

-- A call of `op` or of a batch on one table: a batch makes the table anew, from the copy that
-- `copy_from` gives if it does.
pub data Operation : Type 0 where
  create_table : String → Table → Operation
  drop_table drop_table_if_exists : String → Operation
  add_column : String → Column → Operation
  drop_column : String → String → Operation
  drop_column_of_copy : String → Table → String → Operation
  alter_type : String → String → ColumnType → Operation
  create_foreign_key : String → ForeignKey → Operation

-- The tables of a schema by their names.
abbrev pub Tables : Type 0
Tables = String → Option Table

abbrev pub put : String → Option Table → Tables → Tables
put name o tables n = if str_eq n name then o else tables n

abbrev named : String → Column → Bool
named name c = str_eq c.name name

abbrev without_column : String → Table → Table
without_column name t = record t { columns = select (λ c. not (named name c)) t.columns }

abbrev with_type : String → ColumnType → Column → Column
with_type name kind c = if named name c then record c { kind = kind } else c

-- an operation that needs its table, and some column in it or none of that name
abbrev on_table : Tables → String → (Table → Option Table) → Option Tables
on_table tables name f = elim (tables name) [
  | none ↦ none
  | some t ↦ elim (f t) [ none ↦ none | some t' ↦ some (put name (some t') tables) ]
]

abbrev has_key : String → ForeignKey → Bool
has_key name k = str_eq k.column name

-- What Alembic documents of each operation: the tables afterwards, or `none` where it says nothing
-- or the operation is refused.
unfoldable pub documented : Operation → Tables → Option Tables
documented (Operation.create_table name t) tables = elim (tables name) [
  | none ↦ some (put name (some t) tables)
  | some _ ↦ none
]
documented (Operation.drop_table name) tables = elim (tables name) [
  | none ↦ none
  | some _ ↦ some (put name none tables)
]
documented (Operation.drop_table_if_exists name) tables = some (put name none tables)
documented (Operation.add_column name c) tables = on_table tables name (λ t.
    if any (named c.name) t.columns
    then none
    else some (record t { columns = t.columns ++ c ∷ [] }))
documented (Operation.drop_column name k) tables = on_table tables name (λ t.
    if any (named k) t.columns
    then if any (has_key k) t.foreign_keys then none else some (without_column k t)
    else none)
documented (Operation.drop_column_of_copy name copy k) tables =
    on_table tables name (λ _. some (without_column k copy))
documented (Operation.alter_type name k kind) tables = on_table tables name (λ t.
    if any (named k) t.columns
    then some (record t { columns = map (with_type k kind) t.columns })
    else none)
documented (Operation.create_foreign_key name k) tables = on_table tables name (λ t.
    if any (named k.column) t.columns
    then some (record t { foreign_keys = t.foreign_keys ++ k ∷ [] })
    else none)

-- Alembic on a database: a schema, what an inspection of it shows, and an operation on it, which
-- may raise. It does at least what is documented.
pub record Alembic : Type 1 where
  pub Schema : Type 0
  pub tables : Schema → Tables
  pub run : Operation → Schema → Option Schema
  pub runs :
      (o : Operation) (s : Schema) (after : Tables)
      → documented o (tables s) ≡ some after
      → (s' : Schema) × (run o s ≡ some s') × (tables s' ≡ after)

abbrev pub and_then {ℓ} : {S : Type ℓ} → Option S → (S → Option S) → Option S
and_then none f = none
and_then (some s) f = f s

-- the body of an `upgrade` or a `downgrade`
unfoldable pub run_all :
    (alembic : Alembic) → List Operation → alembic.Schema → Option alembic.Schema
run_all alembic [] s = some s
run_all alembic (o ∷ operations) s =
    and_then (alembic.run o s) (λ s'. run_all alembic operations s')

-- One file of versions.
pub record Migration : Type 0 where
  pub revision : String
  pub down_revision : Option String
  pub upgrade : List Operation
  pub downgrade : List Operation
