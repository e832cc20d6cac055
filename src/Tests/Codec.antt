-- ===== src/Tests/Codec.antt =====
-- A codec in the place of `serde_json`: each text and each list goes with its length in front.
use tss_ecdsa_cli.Base.{ℕ, zero, suc, ◌≡◌, refl, Text, [], ◌∷◌, ◌++◌, Option, none, some, length}
use tss_ecdsa_cli.Common.{PartySignup}
use tss_ecdsa_cli.Room.Members.{MemberMap}
use tss_ecdsa_cli.Room.{SigningRoom}
use tss_ecdsa_cli.Manager.Store.{Json, IsJson}

infixl 5 ◌>>=◌
abbrev ◌>>=◌ : {A B : Type 0} → Option A → (A → Option B) → Option B
none >>= f = none
some a >>= f = f a

unfoldable pub put_text : Text → Text → Text
put_text s r = length s ∷ (s ++ r)

unfoldable pub split : ℕ → Text → Option (Text × Text)
split zero r = some ([], r)
split (suc n) [] = none
split (suc n) (c ∷ r) = do (s, rest) ← split n r; some (c ∷ s, rest)

unfoldable pub get_text : Text → Option (Text × Text)
unfolding split
get_text [] = none
get_text (n ∷ r) = split n r

split-append : (s r : Text) → split (length s) (s ++ r) ≡ some (s, r)
unfolding split
split-append [] r = refl
split-append (c ∷ s) r = rw (split-append s r)

pub get_text-put_text : (s r : Text) → get_text (put_text s r) ≡ some (s, r)
unfolding get_text put_text
get_text-put_text s r = split-append s r

get_number : Text → Option (ℕ × Text)
get_number [] = none
get_number (n ∷ r) = some (n, r)

put_members : MemberMap → Text → Text
unfolding put_text
put_members [] r = r
put_members ((k, i) ∷ m) r = k ∷ i.party_order ∷ i.last_ping ∷ put_text i.party_id (put_members m r)

get_members : ℕ → Text → Option (MemberMap × Text)
unfolding get_number get_text
get_members zero r = some ([], r)
get_members (suc n) r0 = do
  (k, r1) ← get_number r0
  (order, r2) ← get_number r1
  (ping, r3) ← get_number r2
  (id, r4) ← get_text r3
  (m, r5) ← get_members n r4
  some ((k, record { party_id = id; party_order = order; last_ping = ping }) ∷ m, r5)

get_members-put_members :
    (m : MemberMap) (r : Text) → get_members (length m) (put_members m r) ≡ some (m, r)
unfolding get_members put_members
get_members-put_members [] r = refl
get_members-put_members ((k, i) ∷ m) r =
    rw (get_text-put_text i.party_id (put_members m r), get_members-put_members m r)

unfoldable pub put_room : SigningRoom → Text
unfolding put_text put_members
put_room room = put_text room.room_id (
    put_text room.room_uuid (
      put_text room.last_stage
        (room.room_size ∷ length room.member_info ∷ put_members room.member_info [])))

unfoldable pub get_room : Text → Option SigningRoom
unfolding get_text get_number get_members
get_room r0 = do
  (id, r1) ← get_text r0
  (uuid, r2) ← get_text r1
  (stage, r3) ← get_text r2
  (size, r4) ← get_number r3
  (count, r5) ← get_number r4
  (m, _) ← get_members count r5
  some (record {
    room_id = id;
    room_uuid = uuid;
    room_size = size;
    member_info = m;
    last_stage = stage;
  })

get_room-put_room : (room : SigningRoom) → get_room (put_room room) ≡ some room
unfolding get_room put_room
get_room-put_room room = simp (get_text-put_text, get_members-put_members)

abbrev pub room_json : Json SigningRoom
room_json = record { to_string = put_room; from_str = get_room }

pub room_json-IsJson : IsJson room_json
room_json-IsJson = record { from_str-to_string = get_room-put_room }

unfoldable pub put_signup : PartySignup → Text
put_signup s = s.number ∷ s.uuid

unfoldable pub get_signup : Text → Option PartySignup
get_signup [] = none
get_signup (n ∷ u) = some (record { number = n; uuid = u })

abbrev pub signup_json : Json PartySignup
signup_json = record { to_string = put_signup; from_str = get_signup }

pub signup_json-IsJson : IsJson signup_json
unfolding put_signup get_signup
signup_json-IsJson = record { from_str-to_string = λ a. refl }
