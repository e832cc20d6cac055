-- ===== src/Common.antt =====
-- The messages of src/common/mod.rs that the manager and its clients exchange, as records with the
-- source's fields; a `u16`, `u64` or `u8` is a number, a `String` is a `Text`.
use tss_ecdsa_cli.Base.{ℕ, Text, List}

pub record Aead : Type 0 where
  pub ciphertext : List ℕ
  pub tag : List ℕ

pub record PartySignupRequestBody : Type 0 where
  pub threshold : ℕ
  pub room_id : Text
  pub party_number : ℕ
  pub party_uuid : Text
  pub curve_name : Text

pub record PartySignup : Type 0 where
  pub number : ℕ
  pub uuid : Text

pub record SigningPartySignup : Type 0 where
  pub party_order : ℕ
  pub party_uuid : Text
  pub room_uuid : Text
  pub total_joined : ℕ

pub record SigningPartyInfo : Type 0 where
  pub party_id : Text
  pub party_order : ℕ
  pub last_ping : ℕ

pub record Index : Type 0 where
  pub key : Text

pub record Entry : Type 0 where
  pub key : Text
  pub value : Text

pub record ManagerError : Type 0 where
  pub error : Text

pub record Params : Type 0 where
  pub parties : Text
  pub threshold : Text
