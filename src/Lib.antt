-- ===== src/Lib.antt =====
-- metadata-manager: management of the metadata of tables, columns, indexes, constraints and data types,
-- with the storage in JSON files or in PostgreSQL.
--
-- The program. The classes of the interface (src/tables.cpp) check their parameters and call
-- `MetadataProvider` (src/provider/metadata_provider.cpp), which obtains one DAO for each kind of metadata
-- from a session manager and runs changes in a transaction. With the JSON storage the session manager is
-- `DbSessionManagerJson` (src/dao/json/db_session_manager_json.cpp): it holds the transaction lock and the
-- contents that were loaded, and writes those that were modified at the commit. The DAOs
-- (src/dao/json/*_dao_json.cpp) select, insert, update and remove rows in the loaded contents; identifiers
-- come from `ObjectIdGenerator` (src/dao/json/object_id_json.cpp). With the storage in PostgreSQL the session
-- manager is `DbSessionManagerPg` (src/dao/postgresql/db_session_manager_pg.cpp): it holds a connection, on
-- which the DAOs (src/dao/postgresql/*_dao_pg.cpp) run the statements that they have prepared. The structures of the objects are
-- converted to and from property trees (src/metadata.cpp, src/tables.cpp, src/index.cpp,
-- src/constraints.cpp, src/datatypes.cpp).
--
-- The files.
--   Platform: what comes from outside, Boost.PropertyTree with its parsers, the files, `std::hash` and the
--     configured directory, as a record of operations and of their documented laws; Sample is an instance.
--   Outcome, Action, ErrorCode: a function returns its error code, with the out parameters where it
--     succeeds, or throws, or is undefined; a member function is a function of the state beside that.
--   Key, Ptree, Ptree.Helper: the key constants, the keyed members of trees, `ptree_helper`.
--   Object and below: the structures and their conversions (`convert_to_ptree`, `convert_from_ptree`).
--   ObjectId: `ObjectIdGenerator`. Session: `DbSessionManagerJson`; the state of the storage is `World`.
--   Dao and below: the DAO interface and the DAOs, one file for each class; Rows and Nested hold the loops
--     that several classes have.
--   Provider and below: `MetadataProvider` over the interface `DbSessionManager`; Json is the instance.
--   Tables, Indexes, Constraints, DataTypes, Roles, Statistics and below: the classes that callers use,
--     over the same session manager. Metadata: the reading of all objects, its
--     iterator and the operations on structures, which these classes share.
--   Utility: src/common/utility.cpp, with one file for numbers and one for the pieces of texts.
--   Libpq: libpq and the server behind it, as a record of operations and of their documented laws;
--     Sample.Postgres is an instance.
--   Postgres and below: the state `PgWorld`, the connection of the session with the DAOs that the provider
--     holds and the server; Session has the member functions of `DbSessionManagerPg`, Prepared the
--     preparation of statements, Params, Row and Results what the DAOs share, and one directory for each DAO
--     its texts, parameters and rows, its operations (Access) and what they keep inside of a transaction
--     (Guarded). Manager is the instance of the session manager; Arity is about the parameters, Catalog
--     has what the selections list and the types of sql/ddl.sql, and Row.Reading and Rows are about the
--     conversion of rows by these.
--   Keeping: actions that keep a predicate of the state. Provider.Keeps and Tables.Keeps carry it through the
--     operations for any session manager, and both storages give an instance.
--   Examples: the theorems at concrete inputs.
--
-- Numbers. `ObjectId` and the other 64-bit integers are signed integers over the native natural numbers;
-- the code compares, prints and increments them. The increment at the maximum, undefined in C++, has the
-- wrapped value here. All loops run over lists, so no fuel is used.
--
-- PostgreSQL. A pointer to a connection is the number of a handle, which a DAO copies when it is made. The
-- texts of the statements are what boost::format makes of their templates. The unordered maps of statements
-- are lists in the order of insertion, so that this is also the order of their preparation. What the server
-- does with a statement is a parameter.
--
-- Texts that are gone. The keys of `set_statistic` are views of destroyed texts; what is read through them is a
-- parameter. A file whose writing fails may have changed, so what is left then is a parameter too.
--
-- Not modelled: logging, configuration but for the connection string, and the access control lists and
-- tokens but for the check of a permission. Out parameters are modelled where the
-- function succeeds. The unordered map of contents is a list in the order of insertion. One thread is
-- modelled: to lock the transaction lock twice is undefined.
pub mod Prelude
pub mod ErrorCode
pub mod Outcome
pub mod Action
pub mod Keeping
pub mod Key
pub mod Platform
pub mod Ptree
pub mod Object
pub mod ObjectId
pub mod Utility
pub mod Session
pub mod Dao
pub mod Libpq
pub mod Provider
pub mod Postgres
pub mod Tables
pub mod Roles
pub mod Statistics
pub mod Metadata
pub mod Indexes
pub mod Constraints
pub mod DataTypes
pub mod Sample
pub mod Examples
