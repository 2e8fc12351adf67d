-- ===== src/User/Repository.antt =====
-- pkg/user/etc-colon-repository.go: users and groups over the three files, in these modules:
-- State (the repository's fields, and the objects behind its pointers), Load (reading the files and
-- building the indexes), Lookup, Groups (ensuring groups), Accounts and Ensure (ensuring users) and Delete.
pub mod State
pub mod Load
pub mod Lookup
pub mod Options
pub mod HomeDir
pub mod Groups
pub mod Accounts
pub mod Ensure
pub mod Delete
mod Tests
