-- ===== src/Database.antt =====
-- `databaseManager` (src/main_server.cpp), with the connection manager that it calls.
pub mod State
pub mod Users
pub mod Follow
pub mod Update
pub mod Retrieve
pub mod Counting
pub mod Tables
pub mod Followers
pub mod Settling
pub mod Valid
pub mod FollowRun
pub mod UpdateRun
pub mod Delivery
pub mod Sharing
pub mod RetrieveRun
pub mod Keeps
pub mod Posting
pub mod Adding
pub mod Service
pub mod Gate
pub mod Sections
pub mod Tests
