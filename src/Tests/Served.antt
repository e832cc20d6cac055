-- ===== src/Tests/Served.antt =====
-- A network that hands each request to the handlers of src/common/manager.rs, and one that answers
-- every poll alike.
use tss_ecdsa_cli.Base.{
  ℕ, ◌+◌, ◌/◌, ◌≡◌, refl, ap, Text, text_eq, codes, [], ◌∷◌, Option, none, some, if◌then◌else◌, Run,
  ret, panic, no_fuel,
}
use tss_ecdsa_cli.Common.{PartySignupRequestBody, Index, Entry, Params}
use tss_ecdsa_cli.Manager.Store.{Json}
use tss_ecdsa_cli.Manager.{Env, Manager, get, set, signup_keygen, signup_sign}
use tss_ecdsa_cli.Client.Web.{Network}
use tss_ecdsa_cli.Client.{Client}
use tss_ecdsa_cli.Client.Served.{AnsweredBy, Serves}
use tss_ecdsa_cli.Tests.Store.{timed_store}
use tss_ecdsa_cli.Tests.Codec.{get_text-put_text, room_json, signup_json}
use tss_ecdsa_cli.Tests.Rooms.{env_at}
use tss_ecdsa_cli.Tests.Web.{
  wire, put_entry, get_entry, entry_back, put_params, get_params, put_body, get_body,
}

-- The time in milliseconds, and the manager.
pub record Site : Type 0 where
  pub millis : ℕ
  pub manager : Manager (timed_store 300)

abbrev pub env_of : Site → Env
env_of w = env_at (w.millis / 1000) (codes "party")

abbrev answer : {A : Type 0} → Json A → Run A → Text
answer json (ret a) = json.to_string a
answer json (panic p) = 500 ∷ []
answer json no_fuel = 500 ∷ []

abbrev respond :
    {A : Type 0} → Json A → Site → Run A × Manager (timed_store 300) → Option (Option Text) × Site
respond json w (r, m) = (some (some (answer json r)), record w { manager = m })

abbrev unread : Site → Option (Option Text) × Site
unread w = (some (some (400 ∷ [])), w)

abbrev set_route : Site → Option Entry → Option (Option Text) × Site
set_route w none = unread w
set_route w (some e) = respond wire.set_reply w (set (timed_store 300) (env_of w) e w.manager)

abbrev keygen_route : Site → Option (Params × Text) → Option (Option Text) × Site
keygen_route w none = unread w
keygen_route w (some p) =
    respond wire.keygen_reply w
      (signup_keygen (timed_store 300) signup_json (env_of w) p.0 p.1 w.manager)

abbrev sign_route : Site → Option PartySignupRequestBody → Option (Option Text) × Site
sign_route w none = unread w
sign_route w (some b) =
    respond wire.sign_reply w (signup_sign (timed_store 300) room_json (env_of w) b w.manager)

abbrev routes : Text → Text → Site → Option (Option Text) × Site
routes url body w =
    if text_eq url (codes "m/get")
    then respond wire.get_reply w
        (get (timed_store 300) (env_of w) (record { key = body }) w.manager)
    else if text_eq url (codes "m/set")
    then set_route w (get_entry body)
    else if text_eq url (codes "m/signupkeygen")
    then keygen_route w (get_params body)
    else sign_route w (get_body body)

abbrev pub site_network : Network
site_network = record {
  World = Site;
  clock = λ w. w.millis;
  system_clock = λ w. w.millis;
  request = routes;
  wait = λ d w. record w { millis = w.millis + d };
}

abbrev pub party : Client
party = record { address = codes "m" }

body_back : (b : PartySignupRequestBody) → get_body (put_body b) ≡ some b
unfolding get_body put_body
body_back b = rw (get_text-put_text b.room_id _, get_text-put_text b.party_uuid b.curve_name)

params_back : (p : Params × Text) → get_params (put_params p) ≡ some p
unfolding get_params put_params
params_back p = rw (get_text-put_text p.0.parties _, get_text-put_text p.0.threshold p.1)

respond-AnsweredBy :
    {A : Type 0} (json : Json A) (w : Site) (handled : Run A × Manager (timed_store 300))
    → AnsweredBy site_network json (λ w. w.manager) handled (respond json w handled)
respond-AnsweredBy json w handled = record {
  sends = λ a e. ap (λ r. some (some (answer json r))) e;
  leaves = refl;
}

abbrev pub manager_of : Site → Manager (timed_store 300)
manager_of w = w.manager

pub set_served :
    (w : Site) (entry : Entry)
    → AnsweredBy site_network wire.set_reply manager_of
        (set (timed_store 300) (env_of w) entry w.manager)
        (routes (codes "m/set") (put_entry entry) w)
unfolding text_eq
set_served w entry = rw (entry_back entry) (respond-AnsweredBy wire.set_reply w _)

pub get_served :
    (w : Site) (index : Index)
    → AnsweredBy site_network wire.get_reply manager_of
        (get (timed_store 300) (env_of w) index w.manager)
        (routes (codes "m/get") index.key w)
unfolding text_eq
get_served w index = respond-AnsweredBy wire.get_reply w _

pub keygen_served :
    (w : Site) (params : Params) (curve : Text)
    → AnsweredBy site_network wire.keygen_reply manager_of
        (signup_keygen (timed_store 300) signup_json (env_of w) params curve w.manager)
        (routes (codes "m/signupkeygen") (put_params (params, curve)) w)
unfolding text_eq
keygen_served w params curve =
    rw (params_back (params, curve)) (respond-AnsweredBy wire.keygen_reply w _)

pub sign_served :
    (w : Site) (body : PartySignupRequestBody)
    → AnsweredBy site_network wire.sign_reply manager_of
        (signup_sign (timed_store 300) room_json (env_of w) body w.manager)
        (routes (codes "m/signupsign") (put_body body) w)
unfolding text_eq
sign_served w body = rw (body_back body) (respond-AnsweredBy wire.sign_reply w _)

abbrev pub site_network-Serves :
    Serves site_network wire party (timed_store 300) room_json signup_json
site_network-Serves = record {
  manager = manager_of;
  env_of = env_of;
  serves_get = get_served;
  serves_set = set_served;
  serves_keygen = keygen_served;
  serves_sign = sign_served;
}
