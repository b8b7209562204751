-- ===== src/Mongo.antt =====
-- internal/storage/mongo: the implementation of the store. `Driver` is what it uses of the database's
-- driver, `Documents` how it prepares what it writes, `Client` its operations, `Runs` those on task
-- runs and events and all of them as the store's interface; `Laws` and `Contract` say what that keeps.
pub mod Driver
pub mod Documents
pub mod Client
pub mod Runs
pub mod Laws
pub mod Contract
mod Scenarios
