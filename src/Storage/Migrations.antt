-- ===== src/Storage/Migrations.antt =====
-- The migrations of client/src/storage/DatabaseManager.ts: what the schema has, and each statement that
-- changes it. `none` is a statement that fails; the source catches that of `ALTER TABLE` alone.
use tor_e2ee_messenger.Common.{
  ℕ, zero, suc, ◌≡◌, refl, Bool, true, false, not, ◌&&◌, Option, none, some, List, [], ◌∷◌, ◌++◌,
  ltb, nat_eq, max, take, if◌then◌else◌,
}

pub data Table : Type 0 where
  schema_migrations contacts sessions signed_prekeys one_time_prekeys messages : Table
  own_linked_devices : Table

abbrev table_number : Table → ℕ
table_number schema_migrations = 0
table_number contacts = 1
table_number sessions = 2
table_number signed_prekeys = 3
table_number one_time_prekeys = 4
table_number messages = 5
table_number own_linked_devices = 6

pub record Schema : Type 0 where
  pub tables : List Table
  pub message_index : Bool
  pub linked_devices_column : Bool
  pub versions : List ℕ

pub data Statement : Type 0 where
  create_table : Table → Statement
  create_index add_linked_devices : Statement
  insert_version : ℕ → Statement

unfoldable pub has_table : Table → List Table → Bool
has_table t [] = false
has_table t (u ∷ us) = if nat_eq (table_number t) (table_number u) then true else has_table t us

unfoldable pub has_version : ℕ → List ℕ → Bool
has_version v [] = false
has_version v (w ∷ ws) = if nat_eq v w then true else has_version v ws

-- `CREATE TABLE` and `CREATE INDEX` are `IF NOT EXISTS`; the version is a primary key.
unfoldable pub execute : Statement → Schema → Option Schema
unfolding has_table has_version
execute (create_table t) s =
    some (if has_table t s.tables then s else record s { tables = s.tables ++ t ∷ [] })
execute create_index s =
    if has_table messages s.tables then some (record s { message_index = true }) else none
execute add_linked_devices s = some (
    if has_table contacts s.tables && not s.linked_devices_column
    then record s { linked_devices_column = true }
    else s)
execute (insert_version v) s =
    if has_version v s.versions then none else some (record s { versions = s.versions ++ v ∷ [] })

unfoldable pub execute_all : List Statement → Schema → Option Schema
unfolding execute
execute_all [] s = some s
execute_all (x ∷ xs) s = elim (execute x s) [ none ↦ none | some t ↦ execute_all xs t ]

abbrev pub migration_v1 : List Statement
migration_v1 =
    create_table contacts
    ∷ create_table sessions
    ∷ create_table signed_prekeys
    ∷ create_table one_time_prekeys
    ∷ create_table messages
    ∷ create_index
    ∷ insert_version 1
    ∷ []

abbrev pub migration_v2 : List Statement
migration_v2 = add_linked_devices ∷ create_table own_linked_devices ∷ insert_version 2 ∷ []

-- `SELECT MAX(version)`, or 0
unfoldable pub current_version : List ℕ → ℕ
current_version [] = 0
current_version (v ∷ vs) = max v (current_version vs)

-- The statements that a run of the migrations executes.
unfoldable pub pending_migrations : Schema → List Statement
unfolding current_version
pending_migrations s =
    create_table schema_migrations
    ∷ ((if ltb (current_version s.versions) 1 then migration_v1 else [])
        ++ (if ltb (current_version s.versions) 2 then migration_v2 else []))

unfoldable pub run_migrations : Schema → Option Schema
unfolding execute_all pending_migrations
run_migrations s = execute_all (pending_migrations s) s

abbrev pub no_schema : Schema
no_schema = record {
  tables = [];
  message_index = false;
  linked_devices_column = false;
  versions = [];
}

-- The schema that the rest of the client works on.
abbrev pub full_schema : Schema
full_schema = record {
  tables =
      schema_migrations ∷ contacts ∷ sessions ∷ signed_prekeys ∷ one_time_prekeys ∷ messages
      ∷ own_linked_devices ∷ [];
  message_index = true;
  linked_devices_column = true;
  versions = 1 ∷ 2 ∷ [];
}

-- A run on a new database that stops after n statements, and then a whole run.
abbrev pub run_again : Option Schema → Option Schema
run_again none = none
run_again (some s) = run_migrations s

-- A first run of the migrations that is cut off after any number of statements is made good by the next
-- run: it fails nowhere and ends in the full schema. If the first run was not cut off, the next one
-- changes nothing.
pub run_migrations-after_cut :
    (n : ℕ)
    → run_again (execute_all (take n (pending_migrations no_schema)) no_schema) ≡ some full_schema
unfolding run_migrations execute_all execute has_table has_version pending_migrations
    current_version
run_migrations-after_cut zero = refl
run_migrations-after_cut (suc zero) = refl
run_migrations-after_cut (suc (suc zero)) = refl
run_migrations-after_cut (suc (suc (suc zero))) = refl
run_migrations-after_cut (suc (suc (suc (suc zero)))) = refl
run_migrations-after_cut (suc (suc (suc (suc (suc zero))))) = refl
run_migrations-after_cut (suc (suc (suc (suc (suc (suc zero)))))) = refl
run_migrations-after_cut (suc (suc (suc (suc (suc (suc (suc zero))))))) = refl
run_migrations-after_cut (suc (suc (suc (suc (suc (suc (suc (suc zero)))))))) = refl
run_migrations-after_cut (suc (suc (suc (suc (suc (suc (suc (suc (suc zero))))))))) = refl
run_migrations-after_cut (suc (suc (suc (suc (suc (suc (suc (suc (suc (suc zero)))))))))) = refl
run_migrations-after_cut (suc (suc (suc (suc (suc (suc (suc (suc (suc (suc (suc zero))))))))))) =
    refl
run_migrations-after_cut (suc (suc (suc (suc (suc (suc (suc (suc (suc (suc (suc (suc n)))))))))))) =
    refl
