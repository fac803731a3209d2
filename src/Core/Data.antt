-- ===== src/Core/Data.antt =====
-- Data of include/hbm_sim/core/data.hpp and src/core/data.cpp: the SECDED shadow of a block,
-- and MemoryImage with its row buffers.
-- A byte is a number below 256, a ByteVector a list of bytes.
pub mod Round
pub mod Secded
pub mod Powers
pub mod Shadow
pub mod Positions
pub mod Flip
pub mod Addition
pub mod Code
pub mod Flipped
pub mod Repair
pub mod Inject
pub mod Image
pub mod Access
pub mod Keys
pub mod Coherence
pub mod Writeback
pub mod Backing
pub mod Closing
pub mod Settled
pub mod Column
pub mod Rows
pub mod Flush
pub mod Store
pub mod Written
pub mod Hits
pub mod Reading
pub mod Writing
pub mod Memory
pub mod Span
pub mod Lines
pub mod Bytes
