-- ===== src/Object.antt =====
-- The structures of the metadata objects and their conversions to and from property trees. `Base`
-- holds `Object` and `ClassObject`.
pub mod Base
pub mod Column
pub mod Index
pub mod DataType
pub mod Constraint
pub mod Table
