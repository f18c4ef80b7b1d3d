-- ===== src/Inventory.antt =====
-- The stock of cups, lids and ingredients (apps/api/src/inventory).
pub mod Packaging
pub mod Movements
pub mod Counts
