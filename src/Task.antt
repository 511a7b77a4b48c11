-- ===== src/Task.antt =====
-- The task services of src/service/svr_task.c.
pub mod Levels
pub mod Stack
pub mod Create
pub mod Kill
pub mod Hibernate
pub mod Promote
