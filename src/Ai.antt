-- ===== src/Ai.antt =====
-- apps/api/src/modules/ai
pub mod Webhook
pub mod Service
