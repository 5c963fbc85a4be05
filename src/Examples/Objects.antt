-- ===== src/Examples/Objects.antt =====
-- The theorems on the conversions of objects at concrete inputs.
use metadata_manager.Prelude.{pos, negsuc, false, true, [], ◌∷◌, map, ◌≡◌, arith}
use metadata_manager.Outcome.{ok}
use metadata_manager.Sample.{sample}
use metadata_manager.Object.Base.{IsObject, IsClassObject, default_object, default_class_object}
use metadata_manager.Object.Column.{Column, IsColumn}
use metadata_manager.Object.Index.{Index, IsIndex}
use metadata_manager.Object.DataType.{DataType, IsDataType}
use metadata_manager.Object.Constraint.{
  Constraint, IsConstraint, constraint_to_ptree, constraint_from_ptree,
}
use metadata_manager.Object.Constraint.RoundTrip.{constraint_from_to, with_valid_ids}
use metadata_manager.Object.Table.{Table, IsTable, table_to_ptree, table_from_ptree}
use metadata_manager.Object.Table.RoundTrip.{table_from_to}

small : IsObject default_object
small = record { format_version = omega arith; generation = omega arith; id = omega arith }

class_small : IsClassObject default_class_object
class_small = record { object = small; owner_id = omega arith }

abbrev column : Column
column = record {
  object = default_object;
  table_id = pos 3;
  column_number = pos 1;
  data_type_id = pos 23;
  data_length = pos 8 ∷ [];
  varying = false;
  is_not_null = true;
  default_expression = "0";
  is_funcexpr = false;
}

column_small : IsColumn column
column_small = record {
  object = small;
  table_id = omega arith;
  column_number = omega arith;
  data_type_id = omega arith;
  data_length = (omega arith, tt);
}

abbrev constraint : Constraint
constraint = record {
  object = default_object;
  table_id = pos 3;
  type = pos 1;
  columns = pos 1 ∷ [];
  columns_id = [];
  index_id = negsuc 0;
  expression = "";
  pk_table = "";
  pk_columns = [];
  pk_columns_id = [];
  fk_match_type = negsuc 0;
  fk_delete_action = negsuc 0;
  fk_update_action = negsuc 0;
}

constraint_small : IsConstraint constraint
constraint_small = record {
  object = small;
  table_id = omega arith;
  type = omega arith;
  columns = (omega arith, tt);
  columns_id = tt;
  index_id = omega arith;
  pk_columns = tt;
  pk_columns_id = tt;
  fk_match_type = omega arith;
  fk_delete_action = omega arith;
  fk_update_action = omega arith;
}

abbrev table : Table
table = record {
  class_object = default_class_object;
  number_of_tuples = pos 7;
  columns = column ∷ [];
  indexes = [];
  constraints = constraint ∷ [];
}

table_small : IsTable table
table_small = record {
  class_object = class_small;
  number_of_tuples = omega arith;
  columns = (column_small, tt);
  constraints = (constraint_small, tt);
}

abbrev index : Index
index = record {
  class_object = default_class_object;
  table_id = pos 3;
  access_method = pos 1;
  number_of_columns = pos 1;
  number_of_key_columns = pos 1;
  is_unique = true;
  is_primary = false;
  keys = pos 1 ∷ [];
  keys_id = [];
  options = pos 0 ∷ [];
}

index_small : IsIndex index
index_small = record {
  class_object = class_small;
  table_id = omega arith;
  access_method = omega arith;
  number_of_columns = omega arith;
  number_of_key_columns = omega arith;
  keys = (omega arith, tt);
  keys_id = tt;
  options = (omega arith, tt);
}

abbrev data_type : DataType
data_type = record {
  object = default_object;
  pg_data_type = pos 23;
  pg_data_type_name = "integer";
  pg_data_type_qualified_name = "int4";
}

data_type_small : IsDataType data_type
data_type_small = record { object = small; pg_data_type = omega arith }

table_from_to_example :
    table_from_ptree (table_to_ptree table) table
    ≡ ok (record table { indexes = []; constraints = map with_valid_ids (constraint ∷ []) })
table_from_to_example = table_from_to table table table_small

constraint_from_to_example :
    constraint_from_ptree (constraint_to_ptree constraint) ≡ ok (with_valid_ids constraint)
constraint_from_to_example = constraint_from_to constraint constraint_small
