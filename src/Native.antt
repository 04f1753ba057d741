-- ===== src/Native.antt =====
-- crates/fido-key-wrap-libfido2: ceremonies with authenticators over the C library libfido2.
-- Errors and Action are error.rs and calls that may fail, Status and Library the codes and the calls
-- of ffi.rs, and the others the parts of native.rs: requests, the credentials that an authenticator
-- enumerates, devices, the choice of a device, the objects of the library, and the authenticator.
pub mod Errors
pub mod Action
pub mod Status
pub mod Library
pub mod Request
pub mod Inventory
pub mod Device
pub mod Selection
pub mod Credential
pub mod Assertion
pub mod Authenticator
pub mod Inspection
