-- ===== src/Tests.antt =====
-- Runs of the models at concrete inputs, and the parameters that they use.
pub mod Store
pub mod Codec
pub mod Rooms
pub mod Group
pub mod Web
pub mod Served
mod Admitted
pub mod Mailbox
pub mod Library
mod Keygen
pub mod Eddsa
mod EddsaSigning
mod Signed
mod Signer
pub mod SignLibrary
mod Signing
mod Conversion
mod Client
mod CheckSig
mod Protocols
mod Requests
mod Rounds
