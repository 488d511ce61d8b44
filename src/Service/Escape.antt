-- ===== src/Service/Escape.antt =====
-- Names that are not plain: `dbDir` joins a name to the root without a check, and a name such as "."
-- or "a/.." leads to the root itself.
use golang_toys.Base.Bytes.{Bytes}
use golang_toys.Cassandra.Db.{Db}
use golang_toys.Service.Manager.{Manager}
