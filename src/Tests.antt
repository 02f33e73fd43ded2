-- ===== src/Tests.antt =====
-- The code run on small inputs, and the theorems applied to them.
mod Hashed
mod Auth
mod Otp
mod Web
mod Format
mod Configs
mod Login
mod LoggedOut
mod App
mod Session
pub mod Fixture
mod RefreshToken
