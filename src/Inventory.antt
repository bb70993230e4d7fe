-- ===== src/Inventory.antt =====
-- contrib/inventory_builder/inventory.py: the class KubesprayInventory.
pub mod Types
pub mod Hosts
pub mod Ranges
pub mod Groups
pub mod Session
pub mod Environment
mod Examples
