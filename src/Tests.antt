-- ===== src/Tests.antt =====
-- The theorems applied to concrete inputs.
mod Texts
mod Structures
mod Store
mod Files
mod Servers
mod Sessions
mod Programs
mod Remote
