-- ===== src/Processing.antt =====
-- backend/app/processing: runs, segments and the use cases that move them (models.py,
-- run_repository.py, repository.py, cancel.py, scheduler.py).
pub mod Model
pub mod Runs
pub mod Segments
pub mod Ordinals
pub mod Cancel
pub mod Scheduler
mod Examples
