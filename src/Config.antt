-- ===== src/Config.antt =====
-- Configurations: of the single-page application, and of the pilot's infrastructure.
pub mod Spa
pub mod Pilot
pub mod Amplify
