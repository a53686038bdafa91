-- ===== src/Availability.antt =====
-- apps/api/src/modules/availability/availability.service.ts
pub mod Nights
pub mod Pricing
pub mod Inventory
pub mod Search
