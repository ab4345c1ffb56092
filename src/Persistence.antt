-- ===== src/Persistence.antt =====
-- What keeps the events: the event store and the repository of the task service
-- (services/task_service/infrastructure) and the unit of work (libs/common/unit_of_work.py).
pub mod Store
pub mod Reads
pub mod UnitOfWork
pub mod Repository
pub mod Tasks
pub mod Integrity
mod Tests
mod TaskTests
