-- ===== src/Tests.antt =====
-- The theorems at concrete data, on a platform that plays a script.
mod Scripted
mod Reading
mod Serving
mod Client
mod Accepting
mod Disk
mod Files
mod Folder
mod Threads
mod Answering
mod Building
