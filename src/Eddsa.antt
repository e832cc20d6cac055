-- ===== src/Eddsa.antt =====
-- The EdDSA protocol of src/protocols/eddsa: key generation.
pub mod Library
pub mod Keygen
pub mod Derived
pub mod Signed
pub mod Signer
use tss_ecdsa_cli.Base.{Text, codes}

abbrev pub curve_name : Text
curve_name = codes "EdDSA"
