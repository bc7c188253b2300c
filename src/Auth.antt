-- ===== src/Auth.antt =====
-- spa/src/auth: PKCE material, the Cognito client, and the hook over it.
pub mod Pkce
pub mod Claims
pub mod Tokens
pub mod Callback
pub mod Hook
