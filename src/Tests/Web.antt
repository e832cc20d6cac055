-- ===== src/Tests/Web.antt =====
-- Codecs for the messages of src/common/mod.rs, and a network that hands each request to the
-- handlers of src/common/manager.rs, in the place of the crates that do.
use tss_ecdsa_cli.Base.{zero, suc, ◌≡◌, refl, Text, [], ◌∷◌, Option, none, some, Result, ok, err}
use tss_ecdsa_cli.Common.{PartySignupRequestBody, SigningPartySignup, Entry, ManagerError, Params}
use tss_ecdsa_cli.Manager.Store.{IsJson}
use tss_ecdsa_cli.Manager.{get}
use tss_ecdsa_cli.Client.Web.{Wire}
use tss_ecdsa_cli.Tests.Codec.{put_text, get_text, get_text-put_text, put_signup, get_signup}

infixl 5 ◌>>=◌
abbrev ◌>>=◌ : {A B : Type 0} → Option A → (A → Option B) → Option B
none >>= f = none
some a >>= f = f a

unfoldable pub put_entry : Entry → Text
unfolding put_text
put_entry e = put_text e.key e.value

unfoldable pub get_entry : Text → Option Entry
unfolding get_text
get_entry s = do (k, v) ← get_text s; some (record { key = k; value = v })

-- Replies begin with 0 where they are no error.
unfoldable pub put_reply : {A E : Type 0} → (A → Text) → (E → Text) → Result A E → Text
put_reply put put_error (ok a) = 0 ∷ put a
put_reply put put_error (err e) = 1 ∷ put_error e

unfoldable pub get_reply :
    {A E : Type 0} → (Text → Option A) → (Text → Option E) → Text → Option (Result A E)
get_reply get get_error [] = none
get_reply get get_error (zero ∷ s) = do a ← get s; some (ok a)
get_reply get get_error (suc n ∷ s) = do e ← get_error s; some (err e)

reply_back :
    {A E : Type 0} (put : A → Text) (get : Text → Option A) (put_error : E → Text)
    (get_error : Text → Option E)
    → ((a : A) → get (put a) ≡ some a)
    → ((e : E) → get_error (put_error e) ≡ some e)
    → (r : Result A E) → get_reply get get_error (put_reply put put_error r) ≡ some r
unfolding get_reply put_reply
reply_back put get put_error get_error h k (ok a) = rw (h a)
reply_back put get put_error get_error h k (err e) = rw (k e)

abbrev pub error_text : ManagerError → Text
error_text e = e.error

abbrev pub text_error : Text → Option ManagerError
text_error s = some (record { error = s })

unfoldable pub put_place : SigningPartySignup → Text
unfolding put_text
put_place s = s.party_order ∷ s.total_joined ∷ put_text s.party_uuid s.room_uuid

unfoldable pub get_place : Text → Option SigningPartySignup
unfolding get_text
get_place [] = none
get_place (o ∷ []) = none
get_place (o ∷ n ∷ s) = do
  (uuid, room) ← get_text s
  some (record { party_order = o; party_uuid = uuid; room_uuid = room; total_joined = n })

unfoldable pub put_body : PartySignupRequestBody → Text
unfolding put_text
put_body b = b.threshold ∷ b.party_number ∷ put_text b.room_id (put_text b.party_uuid b.curve_name)

unfoldable pub get_body : Text → Option PartySignupRequestBody
unfolding get_text
get_body [] = none
get_body (t ∷ []) = none
get_body (t ∷ n ∷ s) = do
  (room, r) ← get_text s
  (uuid, curve) ← get_text r
  some (record {
    threshold = t;
    room_id = room;
    party_number = n;
    party_uuid = uuid;
    curve_name = curve;
  })

unfoldable pub put_params : Params × Text → Text
unfolding put_text
put_params (p, curve) = put_text p.parties (put_text p.threshold curve)

unfoldable pub get_params : Text → Option (Params × Text)
unfolding get_text
get_params s = do
  (parties, r) ← get_text s
  (threshold, curve) ← get_text r
  some (record { parties = parties; threshold = threshold }, curve)

abbrev pub wire : Wire
wire = record {
  entry = record { to_string = put_entry; from_str = get_entry };
  index = record { to_string = λ i. i.key; from_str = λ s. some (record { key = s }) };
  set_reply = record {
    to_string = put_reply (λ _. []) (λ _. []);
    from_str = get_reply (λ _. some tt) (λ _. some tt);
  };
  get_reply = record {
    to_string = put_reply put_entry error_text;
    from_str = get_reply get_entry text_error;
  };
  keygen_body = record { to_string = put_params; from_str = get_params };
  keygen_reply = record {
    to_string = put_reply put_signup (λ _. []);
    from_str = get_reply get_signup (λ _. some tt);
  };
  sign_body = record { to_string = put_body; from_str = get_body };
  sign_reply = record {
    to_string = put_reply put_place error_text;
    from_str = get_reply get_place text_error;
  };
}

pub entry_back : (e : Entry) → get_entry (put_entry e) ≡ some e
unfolding get_entry put_entry
entry_back e = rw (get_text-put_text e.key e.value)

pub set_reply-IsJson : IsJson wire.set_reply
set_reply-IsJson = record {
  from_str-to_string =
      reply_back (λ _. []) (λ _. some tt) (λ _. []) (λ _. some tt) (λ a. refl) (λ e. refl);
}

pub get_reply-IsJson : IsJson wire.get_reply
get_reply-IsJson = record {
  from_str-to_string = reply_back put_entry get_entry error_text text_error entry_back (λ e. refl);
}

place_back : (s : SigningPartySignup) → get_place (put_place s) ≡ some s
unfolding get_place put_place
place_back s = rw (get_text-put_text s.party_uuid s.room_uuid)

pub sign_reply-IsJson : IsJson wire.sign_reply
sign_reply-IsJson = record {
  from_str-to_string = reply_back put_place get_place error_text text_error place_back (λ e. refl);
}
