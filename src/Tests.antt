-- ===== src/Tests.antt =====
-- Runs of the operations on small stores, and the theorems applied to them.
mod Samples
mod Stores
mod Compaction
mod Merges
mod Frames
mod Nodes
mod Boards
mod Plans
mod Tables
mod Numbers
