-- ===== src/Document.antt =====
-- boring_agent/model.py: the validation of the documents that clients submit.
pub mod Json
pub mod Text
pub mod Checks
pub mod Mentions
pub mod Coddy
pub mod Parts
pub mod Task
pub mod Written
pub mod Validate
pub mod NativeJob
pub mod Ensures
pub mod Numbers
pub mod Sets
pub mod Authority
pub mod Accepted
pub mod Reads
