-- ===== src/Manager/Desk.antt =====
-- A signing room as a desk that gives out seats: what `signup_sign` of src/common/manager.rs promises,
-- without the order of the members and the times of their pings.
use tss_ecdsa_cli.Base.{
  ℕ, suc, ◌+◌, ◌%◌, ◌^◌, ◌≤◌, ◌≡◌, Text, [], Option, none, some, Bool, true, false, length, text_eq,
  ◌==◌, if◌then◌else◌, is_empty, ◌≢◌,
}
use tss_ecdsa_cli.Common.{SigningPartySignup, SigningPartyInfo, ManagerError}
use tss_ecdsa_cli.Room.Members.{MemberMap, lookup}
use tss_ecdsa_cli.Room.{SigningRoom, signup_stage}
use tss_ecdsa_cli.Manager.{full_error, active_error, replaced_error, terminated_error}

-- A seat belongs to a party number: the UUID of its holder, and its order.
pub record Desk : Type 0 where
  pub is_open : Bool
  pub uuid : Text
  pub size : ℕ
  pub count : ℕ
  pub seat : ℕ → Option (Text × ℕ)

abbrev pub holder : Option SigningPartyInfo → Option (Text × ℕ)
holder none = none
holder (some i) = some (i.party_id, i.party_order)

unfoldable pub seat_of : MemberMap → ℕ → Option (Text × ℕ)
unfolding lookup
seat_of members n = holder (lookup n members)

-- The desk that a room shows.
unfoldable pub view : SigningRoom → Desk
unfolding seat_of
view room = record {
  is_open = text_eq room.last_stage signup_stage;
  uuid = room.room_uuid;
  size = room.room_size;
  count = length room.member_info;
  seat = seat_of room.member_info;
}

-- The desk is the same but for its seats.
pub record SameDoor (d e : Desk) : Type 0 where
  pub is_open : e.is_open ≡ d.is_open
  pub uuid : e.uuid ≡ d.uuid
  pub size : e.size ≡ d.size

-- One seat has another holder.
abbrev pub Seats : Desk → Desk → ℕ → Text × ℕ → Type 0
Seats d e n held = (j : ℕ) → e.seat j ≡ (if n == j then some held else d.seat j)

abbrev pub SameSeats : Desk → Desk → Type 0
SameSeats d e = ((j : ℕ) → e.seat j ≡ d.seat j) × (e.count ≡ d.count)

pub record IsVacant (d : Desk) : Type 0 where
  pub is_open : d.is_open ≡ true
  pub count : d.count ≡ 0
  pub seat : (j : ℕ) → d.seat j ≡ none

-- What may happen at a desk: nothing; a party takes a seat that nobody holds, and gets the next order;
-- a holder is replaced under its order; the desk closes when as many seats are held as it is for; a desk
-- that is closed begins anew.
pub data Move : Desk → Desk → Type 0 where
  stays : {d e : Desk} → SameSeats d e → SameDoor d e → Move d e
  takes :
      {d e : Desk} (n : ℕ) (u : Text)
      → d.is_open ≡ true
      → d.seat n ≡ none
      → Seats d e n (u, (d.count + 1) % 2 ^ 16)
      → e.count ≡ suc d.count
      → SameDoor d e
      → Move d e
  replaces :
      {d e : Desk} (n : ℕ) (u v : Text) (o : ℕ)
      → d.is_open ≡ true
      → d.seat n ≡ some (v, o)
      → Seats d e n (u, o)
      → e.count ≡ d.count
      → SameDoor d e
      → Move d e
  closes :
      {d e : Desk}
      → d.size ≤ d.count
      → SameSeats d e
      → e.is_open ≡ false
      → e.uuid ≡ d.uuid
      → e.size ≡ d.size
      → Move d e
  reopens : {d v e : Desk} → d.is_open ≡ false → IsVacant v → Move v e → Move d e

-- What a party is told: its seat, and the UUID of the desk once it is closed.
pub record Tells (s : SigningPartySignup) (d : Desk) (n : ℕ) : Type 0 where
  pub seat : d.seat n ≡ some (s.party_uuid, s.party_order)
  pub uuid : s.room_uuid ≡ (if d.is_open then [] else d.uuid)

-- Why a party `n` that gives the UUID `u` is turned away: it has no seat yet and as many seats are held as
-- the desk is for; it has no seat yet and the seat is held; it does not hold its seat, at a desk that is
-- open or closed; or any of these after the desk began anew.
pub data Refusal : Desk → ℕ → Text → ManagerError → Type 0 where
  full :
      {d : Desk} {n : ℕ} {u : Text}
      → is_empty u ≡ true
      → d.size ≤ d.count
      → Refusal d n u full_error
  active :
      {d : Desk} {n : ℕ} {u : Text} (held : Text × ℕ)
      → is_empty u ≡ true
      → d.seat n ≡ some held
      → Refusal d n u active_error
  lost :
      {d : Desk} {n : ℕ} {u : Text}
      → is_empty u ≡ false
      → ((o : ℕ) → d.seat n ≢ some (u, o))
      → Refusal d n u replaced_error
  shut :
      {d : Desk} {n : ℕ} {u : Text}
      → d.is_open ≡ false
      → ((o : ℕ) → d.seat n ≢ some (u, o))
      → Refusal d n u terminated_error
  anew :
      {d v : Desk} {n : ℕ} {u : Text} {e : ManagerError}
      → d.is_open ≡ false
      → IsVacant v
      → Refusal v n u e
      → Refusal d n u e
