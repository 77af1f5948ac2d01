-- ===== src/Application/Schedule.antt =====
-- core/internal/application/schedule.go: what the loop does in a turn. The operations are in the
-- children, one for each part of the file.
pub mod Retire
pub mod Submit
pub mod Finish
pub mod Dispatch
pub mod Expire
