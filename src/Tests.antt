-- ===== src/Tests.antt =====
-- The theorems at concrete inputs, and runs of the model on inputs that can be followed in the
-- source.
mod Stream
mod Login
mod Page
mod Settings
mod Talk
mod Traffic
mod SignIn
mod Publishing
mod Memory
mod Turn
mod Serving
mod Admission
mod Visit
