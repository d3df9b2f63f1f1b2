-- ===== src/Ipam.antt =====
-- The IPAM plugin: multus-ipam and its packages.
pub mod Address
pub mod Range
pub mod SimpleRange
pub mod RangeSet
pub mod Store
pub mod Iter
pub mod Allocator
pub mod Disk
pub mod Lease
pub mod Config
pub mod Command
