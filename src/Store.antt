-- ===== src/Store.antt =====
-- snooze_core/models.py, store.py: the job states, the files of a job directory and the operations
-- that write them.
pub mod States
pub mod Records
pub mod Update
pub mod Serial
