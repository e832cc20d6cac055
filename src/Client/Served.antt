-- ===== src/Client/Served.antt =====
-- The web server between the clients of src/common/mod.rs and the handlers of src/common/manager.rs.
-- It is Rocket's part: `routes![get, set, signup_keygen, signup_sign]` of `run_manager` says which
-- handler answers a path, and `Json` that the answer is the handler's value as JSON.
use tss_ecdsa_cli.Base.{◌++◌, ◌≡◌, Text, codes, Option, some, Run, ret}
use tss_ecdsa_cli.Common.{PartySignup, PartySignupRequestBody, Params, Index, Entry}
use tss_ecdsa_cli.Room.{SigningRoom}
use tss_ecdsa_cli.Manager.Store.{TtlHashMap, Json}
use tss_ecdsa_cli.Manager.{Env, Manager, get, set, signup_keygen, signup_sign}
use tss_ecdsa_cli.Client.Web.{Network, Wire}
use tss_ecdsa_cli.Client.{Client}

abbrev pub url_of : Client → Text → Text
url_of client path = client.address ++ codes "/" ++ path

-- What a request changes and answers: the manager is as its handler leaves it, and a handler that
-- returns has its value sent.
pub record AnsweredBy (net : Network) {A : Type 0} (json : Json A) {M : Type 0}
    (manager : net.World → M) (handled : Run A × M) (answer : Option (Option Text) × net.World)
    : Type 0 where
  pub sends : (a : A) → handled.0 ≡ ret a → answer.0 ≡ some (some (json.to_string a))
  pub leaves : manager answer.1 ≡ handled.1

-- The network has the manager behind the address of the client.
pub record Serves (net : Network) (wire : Wire) (client : Client) (store : TtlHashMap)
    (rooms : Json SigningRoom) (signups : Json PartySignup) : Type 0 where
  pub manager : net.World → Manager store
  pub env_of : net.World → Env
  pub serves_get :
      (w : net.World) (index : Index)
      → AnsweredBy net wire.get_reply manager
          (get store (env_of w) index (manager w))
          (net.request (url_of client (codes "get")) (wire.index.to_string index) w)
  pub serves_set :
      (w : net.World) (entry : Entry)
      → AnsweredBy net wire.set_reply manager
          (set store (env_of w) entry (manager w))
          (net.request (url_of client (codes "set")) (wire.entry.to_string entry) w)
  pub serves_keygen :
      (w : net.World) (params : Params) (curve : Text)
      → AnsweredBy net wire.keygen_reply manager
          (signup_keygen store signups (env_of w) params curve (manager w))
          (net.request
            (url_of client (codes "signupkeygen"))
            (wire.keygen_body.to_string (params, curve))
            w)
  pub serves_sign :
      (w : net.World) (body : PartySignupRequestBody)
      → AnsweredBy net wire.sign_reply manager
          (signup_sign store rooms (env_of w) body (manager w))
          (net.request (url_of client (codes "signupsign")) (wire.sign_body.to_string body) w)
