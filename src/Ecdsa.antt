-- ===== src/Ecdsa.antt =====
-- The ECDSA protocol of src/protocols/ecdsa: key generation, signing, public keys and the conversion
-- of old files.
pub mod Library
pub mod Keygen
pub mod Conversion
pub mod Pubkey
pub mod Signer
pub mod Commands
pub mod CheckSig
use tss_ecdsa_cli.Base.{Text, codes}

abbrev pub curve_name : Text
curve_name = codes "ECDSA"
