-- ===== src/Tests.antt =====
-- The theorems applied to concrete data, one module for each part.
mod Queue
mod Marker
mod Grants
mod Forgetting
mod Activation
mod Recognition
mod Secrecy
mod Search
mod Files
mod Html
mod Retained
mod Capturing
mod Commands
mod Listed
