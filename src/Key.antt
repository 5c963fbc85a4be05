-- ===== src/Key.antt =====
-- The key constants of the metadata objects: one constructor for each spelling, since several classes
-- name the same spelling (`Table::COLUMNS_NODE`, `Constraint::COLUMNS` and `Index::KEYS` are "columns").
use metadata_manager.Prelude.{Bool, String, str_eq}

pub data Key : Type 0 where
  format_version generation id name : Key
  database_name schema_name namespace owner_id acl : Key
  table_id column_id column_number column_name data_type_id data_length varying is_not_null
        default_expr is_funcexpr :
      Key
  columns constraints number_of_tuples : Key
  type columns_id index_id expression pk_table pk_columns pk_columns_id : Key
  fk_match_type fk_delete_action fk_update_action : Key
  access_method number_of_columns number_of_key_columns is_unique is_primary options : Key
  pg_data_type pg_data_type_name pg_data_type_qualified_name : Key
  tables indexes data_types global : Key
  owner_role_id column_statistic : Key
  super inherit createrole createdb canlogin replication bypassrls connlimit password validuntil :
      Key
  select_privilege insert_privilege update_privilege delete_privilege truncate_privilege
        references_privilege :
      Key

abbrev pub spelling : Key → String
spelling Key.format_version = "formatVersion"
spelling Key.generation = "generation"
spelling Key.id = "id"
spelling Key.name = "name"
spelling Key.database_name = "databaseName"
spelling Key.schema_name = "schemaName"
spelling Key.namespace = "namespace"
spelling Key.owner_id = "ownerId"
spelling Key.acl = "acl"
spelling Key.table_id = "tableId"
spelling Key.column_id = "columnId"
spelling Key.column_number = "columnNumber"
spelling Key.column_name = "columnName"
spelling Key.data_type_id = "dataTypeId"
spelling Key.data_length = "dataLength"
spelling Key.varying = "varying"
spelling Key.is_not_null = "isNotNull"
spelling Key.default_expr = "defaultExpression"
spelling Key.is_funcexpr = "isFuncExpr"
spelling Key.columns = "columns"
spelling Key.constraints = "constraints"
spelling Key.number_of_tuples = "numberOfTuples"
spelling Key.type = "type"
spelling Key.columns_id = "columnsId"
spelling Key.index_id = "indexId"
spelling Key.expression = "expression"
spelling Key.pk_table = "pkTable"
spelling Key.pk_columns = "pkColumns"
spelling Key.pk_columns_id = "pkColumnsId"
spelling Key.fk_match_type = "fkMatchType"
spelling Key.fk_delete_action = "fkDeleteAction"
spelling Key.fk_update_action = "fkUpdateAction"
spelling Key.access_method = "accessMethod"
spelling Key.number_of_columns = "numberOfColumns"
spelling Key.number_of_key_columns = "numberOfKeyColumns"
spelling Key.is_unique = "IsUnique"
spelling Key.is_primary = "IsPrimary"
spelling Key.options = "options"
spelling Key.pg_data_type = "pg_dataType"
spelling Key.pg_data_type_name = "pg_dataTypeName"
spelling Key.pg_data_type_qualified_name = "pg_dataTypeQualifiedName"
spelling Key.tables = "tables"
spelling Key.indexes = "indexes"
spelling Key.data_types = "data_types"
spelling Key.global = "global"
spelling Key.owner_role_id = "ownerRoleId"
spelling Key.column_statistic = "columnStatistic"
spelling Key.super = "super"
spelling Key.inherit = "inherit"
spelling Key.createrole = "createrole"
spelling Key.createdb = "createdb"
spelling Key.canlogin = "canlogin"
spelling Key.replication = "replication"
spelling Key.bypassrls = "bypassrls"
spelling Key.connlimit = "connlimit"
spelling Key.password = "password"
spelling Key.validuntil = "validuntil"
spelling Key.select_privilege = "Select"
spelling Key.insert_privilege = "Insert"
spelling Key.update_privilege = "Update"
spelling Key.delete_privilege = "Delete"
spelling Key.truncate_privilege = "Truncate"
spelling Key.references_privilege = "References"

-- Keys are compared by their spelling.
infix 50 ◌=?◌
abbrev pub ◌=?◌ : Key → Key → Bool
k =? j = str_eq (spelling k) (spelling j)
