-- ===== src/Manager/Seats.antt =====
-- The seats of src/common/signing_room.rs: what the writes to the members do to them.
use tss_ecdsa_cli.Base.{
  ℕ, suc, ◌≡◌, inl, inr, refl, sym, ap, ◌∙◌, Text, [], ◌∷◌, length, Option, none, some,
  Option-cases, true, ◌==◌, Bool-cases, if◌then◌else◌, text_eq, arith, false, text_eq_refl, ◌≢◌,
}
use tss_ecdsa_cli.Common.{SigningPartyInfo}
use tss_ecdsa_cli.Room.Members.{
  MemberMap, lookup, insert, modify, lookup-insert, lookup-modify_self, lookup-modify_ne,
  contains_key,
}
use tss_ecdsa_cli.Room.{SigningRoom, has_member}
use tss_ecdsa_cli.Manager.Desk.{holder, seat_of, view}
use tss_ecdsa_cli.Room.Activity.{has_member_lem}

pub length-insert :
    (n : ℕ) (i : SigningPartyInfo) (m : MemberMap)
    → lookup n m ≡ none
    → length (insert n i m) ≡ suc (length m)
unfolding insert lookup
length-insert n i [] h = refl
length-insert n i ((j, w) ∷ m) h = ground (arith, length-insert n i m)

pub seat-insert :
    (n : ℕ) (i : SigningPartyInfo) (m : MemberMap) (j : ℕ)
    → seat_of (insert n i m) j ≡ (if n == j then some (i.party_id, i.party_order) else seat_of m j)
unfolding seat_of
seat-insert n i m j = rw (lookup-insert n j i m) (ground arith)

-- A write that keeps the holder and the order.
pub seat-modify_same :
    (n : ℕ) (f : SigningPartyInfo → SigningPartyInfo)
    → ((i : SigningPartyInfo) → ◌≡◌ {A = Option (Text × ℕ)} (holder (some (f i))) (holder (some i)))
    → (m : MemberMap) (j : ℕ) → seat_of (modify n f m) j ≡ seat_of m j
unfolding seat_of modify lookup
seat-modify_same n f h [] j = refl
seat-modify_same n f h ((k, w) ∷ m) j = elim (Bool-cases (k == n)) [
  | inl own ↦ elim (Bool-cases (k == j)) [
    | inl here ↦ rw (own, here) (h w)
    | inr there ↦ rw (own, there) refl
  ]
  | inr other ↦ elim (Bool-cases (k == j)) [
    | inl here ↦ rw (other, here) refl
    | inr there ↦ rw (other, there) (seat-modify_same n f h m j)
  ]
]

pub seat-modify :
    (n : ℕ) (f : SigningPartyInfo → SigningPartyInfo) (m : MemberMap) (i : SigningPartyInfo) (j : ℕ)
    → lookup n m ≡ some i
    → seat_of (modify n f m) j
      ≡ (if n == j then some ((f i).party_id, (f i).party_order) else seat_of m j)
unfolding seat_of
seat-modify n f m i j h = elim (Bool-cases (n == j)) [
  | inl own ↦
      let same : n ≡ j = ground (arith, own) in
      rw own (
        ap (λ k. holder (lookup k (modify n f m))) (sym same)
        ∙ ap holder (lookup-modify_self n f m i h))
  | inr other ↦ rw other (ap holder (lookup-modify_ne n j f m (λ e. ground (arith, e))))
]

abbrev name_of : Option (Text × ℕ) → Text
name_of none = []
name_of (some held) = held.0

-- A party that `has_member` does not find holds no seat.
pub has_member-seat :
    (n : ℕ) (u : Text) (room : SigningRoom)
    → has_member n u room ≡ false
    → (o : ℕ) → (view room).seat n ≢ some (u, o)
unfolding view seat_of has_member
has_member-seat n u room unknown o e = elim (Option-cases (lookup n room.member_info)) [
  | inl absent ↦ absurd (none_some (ap holder (sym absent) ∙ e))
  | inr (i, found) ↦ absurd (
      false_true (
        sym unknown
        ∙ has_member_lem n u room i found
        ∙ ap (λ v. text_eq v u) (ap name_of (ap holder (sym found) ∙ e))
        ∙ text_eq_refl u))
]
  where
    none_some : ◌≢◌ {A = Option (Text × ℕ)} none (some (u, o))
    none_some h = cc

    false_true : false ≢ true
    false_true h = cc

pub contains_key-seat :
    (n : ℕ) (room : SigningRoom)
    → contains_key n room.member_info ≡ true
    → (held : Text × ℕ) × ((view room).seat n ≡ some held)
unfolding view seat_of contains_key
contains_key-seat n room h = elim (Option-cases (lookup n room.member_info)) [
  | inl absent ↦ absurd (ground (arith, h, absent))
  | inr (i, found) ↦ (_, ap holder found)
]
