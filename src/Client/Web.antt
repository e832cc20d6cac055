-- ===== src/Client/Web.antt =====
-- What the client of src/common/mod.rs uses of its surroundings: HTTP requests (`reqwest`), sleeping
-- the monotonic clock and the system's, and `serde_json` at the types of its messages.
use tss_ecdsa_cli.Base.{ℕ, ◌+◌, ◌≤◌, Text, Option, Result}
use tss_ecdsa_cli.Common.{
  PartySignupRequestBody, PartySignup, SigningPartySignup, Index, Entry, ManagerError, Params,
}
use tss_ecdsa_cli.Manager.Store.{Json}

-- `post` gives `none` if the request fails, and `some none` if its answer is no text. Times are in
-- milliseconds.
pub record Network : Type 1 where
  pub World : Type 0
  pub clock : World → ℕ
  pub system_clock : World → ℕ
  pub request : Text → Text → World → Option (Option Text) × World
  pub wait : ℕ → World → World

-- The monotonic clock does not run backwards, and a sleep takes its time.
pub record IsTimed (net : Network) : Type 0 where
  pub request_takes_time :
      (url body : Text) (w : net.World) → net.clock w ≤ net.clock (net.request url body w).1
  pub wait_takes_time : (d : ℕ) (w : net.World) → net.clock w + d ≤ net.clock (net.wait d w)

pub record Wire : Type 0 where
  pub entry : Json Entry
  pub index : Json Index
  pub set_reply : Json (Result (Unit {0}) (Unit {0}))
  pub get_reply : Json (Result Entry ManagerError)
  pub keygen_body : Json (Params × Text)
  pub keygen_reply : Json (Result PartySignup (Unit {0}))
  pub sign_body : Json PartySignupRequestBody
  pub sign_reply : Json (Result SigningPartySignup ManagerError)
