-- ===== src/Tests.antt =====
-- Concrete inputs, and the properties of the other modules applied to them.
mod Fixtures
mod Token
mod Ceremonies
mod Authenticators
mod World
mod Runs
mod Values
mod Layers
mod Envelopes
mod Operations
