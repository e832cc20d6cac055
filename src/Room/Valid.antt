-- ===== src/Room/Valid.antt =====
-- The invariant of a room of src/common/signing_room.rs, and that its methods keep it.
use tss_ecdsa_cli.Base.{
  ℕ, suc, ◌+◌, ◌%◌, ◌^◌, ◌≡◌, refl, ◌⊎◌, inl, inr, Text, [], ◌∷◌, none, some, length, arith,
  if_both, ◌&&◌, leb, Ensures, Ensures-bind, Ensures-bind_any, ltb, Option-cases, Bool-cases, ◌==◌,
  ◌∙◌, unwrap_option,
}
use tss_ecdsa_cli.Common.{SigningPartyInfo}
use tss_ecdsa_cli.Room.Members.{MemberMap, lookup, insert, modify, lookup-insert, lookup-modify_ne}
use tss_ecdsa_cli.Room.{
  SigningRoom, Clock, signup_stage, terminated_stage, new, add_party, replace_party, pinged,
  close_signup_window, close_if_all_active, update_ping, is_full, active_members, get_signup_info,
}

-- No party number has two entries.
abbrev pub Distinct : MemberMap → Type 0
Distinct [] = Unit {0}
Distinct (e ∷ m) = (lookup e.0 m ≡ none) × Distinct m

-- The entries hold the orders `n`, `n + 1`, and so on, as `u16`.
abbrev pub Numbered : ℕ → MemberMap → Type 0
Numbered n [] = Unit {0}
Numbered n (e ∷ m) = (e.1.party_order ≡ n % 2 ^ 16) × Numbered (suc n) m

pub record IsValid (room : SigningRoom) : Type 0 where
  pub distinct : Distinct room.member_info
  pub numbered : Numbered 1 room.member_info
  pub stage : (room.last_stage ≡ signup_stage) ⊎ (room.last_stage ≡ terminated_stage)

Distinct-insert :
    (k : ℕ) (v : SigningPartyInfo) (m : MemberMap) → Distinct m → Distinct (insert k v m)
unfolding insert lookup
Distinct-insert k v [] d = (refl, tt)
Distinct-insert k v ((j, w) ∷ m) d =
    ground (arith, lookup-insert k j v m, Distinct-insert k v m d.1)

Numbered-insert :
    (n k : ℕ) (v : SigningPartyInfo) (m : MemberMap)
    → lookup k m ≡ none
    → v.party_order ≡ (n + length m) % 2 ^ 16
    → Numbered n m
    → Numbered n (insert k v m)
unfolding insert lookup
Numbered-insert n k v [] h o d = omega arith
Numbered-insert n k v ((j, w) ∷ m) h o d = ground (arith, Numbered-insert (suc n) k v m)

module _ (k : ℕ) (f : SigningPartyInfo → SigningPartyInfo) where
  Distinct-modify : (m : MemberMap) → Distinct m → Distinct (modify k f m)
  unfolding modify
  Distinct-modify [] d = tt
  Distinct-modify ((j, w) ∷ m) d = ground (arith, lookup-modify_ne k j f m, Distinct-modify m d.1)

  Numbered-modify :
      (n : ℕ) (m : MemberMap)
      → ((v : SigningPartyInfo) → lookup k m ≡ some v → (f v).party_order ≡ v.party_order)
      → Numbered n m
      → Numbered n (modify k f m)
  unfolding modify lookup
  Numbered-modify n [] h d = tt
  Numbered-modify n ((j, w) ∷ m) h d = elim (Bool-cases (j == k)) [
    | inl e ↦ rw e (h w (rw e) ∙ d.0, d.1)
    | inr e ↦ rw e (d.0, Numbered-modify (suc n) m (λ v p. h v (rw e p)) d.1)
  ]

pub new-IsValid : (room_id : Text) (size : ℕ) (uuid : Text) → IsValid (new room_id size uuid)
unfolding new
new-IsValid room_id size uuid = record { distinct = tt; numbered = tt; stage = inl refl }

pub add_party-IsValid :
    (c : Clock) (uuid : Text) (n : ℕ) (room : SigningRoom)
    → lookup n room.member_info ≡ none
    → IsValid room
    → Ensures (λ r. IsValid r.1) (add_party c uuid n room)
unfolding add_party
add_party-IsValid c uuid n room absent v =
    elim (Bool-cases (ltb (length room.member_info) (2 ^ 16))) [
      | inl small ↦ rw small (record {
        distinct = Distinct-insert n _ room.member_info v.distinct;
        numbered = Numbered-insert 1 n _ room.member_info absent (omega arith) v.numbered;
        stage = v.stage;
      })
      | inr large ↦ rw large tt
    ]

pub replace_party-IsValid :
    (c : Clock) (uuid : Text) (n : ℕ) (room : SigningRoom)
    → IsValid room
    → Ensures (λ r. IsValid r.1) (replace_party c uuid n room)
unfolding replace_party
replace_party-IsValid c uuid n room v = elim (Option-cases (lookup n room.member_info)) [
  | inl absent ↦ rw absent tt
  | inr (i, found) ↦ rw found (record {
    distinct = Distinct-modify n _ room.member_info v.distinct;
    numbered = Numbered-modify n _ 1 room.member_info (λ w p. ground arith) v.numbered;
    stage = v.stage;
  })
]

pub pinged-IsValid :
    (c : Clock) (n : ℕ) (room : SigningRoom) → IsValid room → IsValid (pinged c n room)
unfolding pinged
pinged-IsValid c n room v = record {
  distinct = Distinct-modify n _ room.member_info v.distinct;
  numbered = Numbered-modify n _ 1 room.member_info (λ i p. refl) v.numbered;
  stage = v.stage;
}

close_if_all_active-IsValid :
    (c : Clock) (room : SigningRoom) → IsValid room → Ensures IsValid (close_if_all_active c room)
unfolding close_if_all_active close_signup_window
close_if_all_active-IsValid c room v =
    if_both (Ensures IsValid) (is_full room)
      (Ensures-bind_any IsValid (active_members c room) _ λ a _.
        if_both (Ensures IsValid) (leb room.room_size (length a))
          (Ensures-bind_any IsValid (active_members c room) _ λ b _.
            if_both IsValid (is_full room && leb room.room_size (length b))
              (record { distinct = v.distinct; numbered = v.numbered; stage = inr refl }) v)
          v)
      v

pub update_ping-IsValid :
    (c : Clock) (n : ℕ) (room : SigningRoom)
    → IsValid room
    → Ensures (λ r. IsValid r.1) (update_ping c n room)
unfolding update_ping
update_ping-IsValid c n room v =
    Ensures-bind_any _ (unwrap_option (lookup n room.member_info)) _ λ _ _.
      Ensures-bind IsValid _ (close_if_all_active c (pinged c n room)) _
        (close_if_all_active-IsValid c (pinged c n room) (pinged-IsValid c n room v))
        λ closed w. Ensures-bind_any _ (get_signup_info c n closed) _ λ _ _. w
