-- ===== src/InodeManager.antt =====
-- The inode layer of inode_manager.h and inode_manager.cc. The state is that of the block manager.
-- `none` stands for undefined behaviour: a null inode that is dereferenced, or an index past the
-- end of the array that holds the indirect block. `now` is what `std::time` returns, below 2 ^ 32.
-- Local arrays and the memory of `malloc` hold what the argument `junk` says.
pub mod Table
pub mod Files
pub mod Loops
pub mod Reads
pub mod Space
pub mod Mapping
pub mod Placement
pub mod Allocation
pub mod Inodes
pub mod Boot
pub mod Creation
pub mod Removal
pub mod RoundTrip
pub mod Contents
mod Tests
