-- ===== src/Block.antt =====
-- `parseRegion` of backfill/block.go: the nodes of a CAR region, collected by kind and assembled
-- into a block through the block node's own entry links.
pub mod Reader
pub mod Anchor
pub mod Ipld
pub mod Region
pub mod Membership
pub mod Assembly
pub mod Truncated
