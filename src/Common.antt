-- ===== src/Common.antt =====
-- services/common.py: what the services share.
pub mod Paging
pub mod Pages
pub mod Once
pub mod Dispatch
pub mod Runs
pub mod Token
pub mod Signed
pub mod Secret
