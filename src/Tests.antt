-- ===== src/Tests.antt =====
-- The theorems at concrete inputs, with the hypotheses that hold there.
mod Samples
mod Coordinator
mod Codecs
mod Rows
mod Gate
mod Parts
mod Commit
mod Index
mod Envelope
