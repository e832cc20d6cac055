-- ===== src/Client/Keys.antt =====
-- The keys of the entries that the clients of src/common/mod.rs write: no two messages share one, and
-- none is the key of a signup.
use tss_ecdsa_cli.Base.{
  ℕ, ◌<◌, ◌≡◌, ◌≢◌, refl, Text, codes, [], ◌∷◌, ◌++◌, to_text, to_text-All, to_text-ne-nil,
  to_text-injective, arith, IsDigit, All,
}
use tss_ecdsa_cli.Common.{PartySignupRequestBody}
use tss_ecdsa_cli.Manager.{sign_key, keygen_key}

-- `format!("{}-{}-{}", party_num, round, sender_uuid)`.
unfoldable pub broadcast_key : ℕ → Text → Text → Text
broadcast_key party_num round sender_uuid =
    to_text party_num ++ (codes "-" ++ (round ++ (codes "-" ++ sender_uuid)))

-- `format!("{}-{}-{}-{}", party_from, party_to, round, sender_uuid)`.
unfoldable pub p2p_key : ℕ → ℕ → Text → Text → Text
p2p_key party_from party_to round sender_uuid =
    to_text party_from
    ++ (codes "-" ++ (to_text party_to ++ (codes "-" ++ (round ++ (codes "-" ++ sender_uuid)))))

-- As the names of the rounds are.
abbrev pub IsDashless : Text → Type 0
IsDashless = All (λ c. c ≢ b'-')

IsDashless-digits : (s : Text) → All IsDigit s → IsDashless s
IsDashless-digits [] d = tt
IsDashless-digits (c ∷ s) d = (omega arith, IsDashless-digits s d.1)

-- A text up to its first dash.
first_dash :
    (x y r s : Text)
    → IsDashless x
    → IsDashless y
    → x ++ b'-' ∷ r ≡ y ++ b'-' ∷ s
    → (x ≡ y) × (r ≡ s)
first_dash [] [] r s a b e = ground arith
first_dash [] (c ∷ y) r s a b e = ground arith
first_dash (c ∷ x) [] r s a b e = ground arith
first_dash (c ∷ x) (d ∷ y) r s a b e = ground (arith, first_dash x y r s)

number_first :
    (i j : ℕ) (r s : Text) → to_text i ++ b'-' ∷ r ≡ to_text j ++ b'-' ∷ s → (i ≡ j) × (r ≡ s)
number_first i j r s e =
    let (same, rest) =
      first_dash (to_text i) (to_text j) r s (IsDashless-digits _ (to_text-All i))
        (IsDashless-digits _ (to_text-All j)) e in
    (to_text-injective i j same, rest)

-- For rounds without a dash in their names, two broadcasts have one key only if they come from one
-- party, for one round of one session.
pub broadcast_key-injective :
    (i j : ℕ) (round round' uuid uuid' : Text)
    → IsDashless round
    → IsDashless round'
    → broadcast_key i round uuid ≡ broadcast_key j round' uuid'
    → (i ≡ j) × (round ≡ round') × (uuid ≡ uuid')
unfolding broadcast_key
broadcast_key-injective i j round round' uuid uuid' d d' e =
    let (same, rest) = number_first i j _ _ e in
    let (rounds, uuids) = first_dash round round' uuid uuid' d d' rest in (same, rounds, uuids)

-- For rounds without a dash in their names, two messages between parties have one key only if
-- sender, receiver, round and session agree.
pub p2p_key-injective :
    (i j to to' : ℕ) (round round' uuid uuid' : Text)
    → IsDashless round
    → IsDashless round'
    → p2p_key i to round uuid ≡ p2p_key j to' round' uuid'
    → (i ≡ j) × (to ≡ to') × (round ≡ round') × (uuid ≡ uuid')
unfolding p2p_key
p2p_key-injective i j to to' round round' uuid uuid' d d' e =
    let (from_same, rest) = number_first i j _ _ e in
    let (to_same, rest') = number_first to to' _ _ rest in
    let (rounds, uuids) = first_dash round round' uuid uuid' d d' rest' in
    (from_same, to_same, rounds, uuids)

-- A broadcast for a round whose name has no dash and is no number never has the key of a message
-- between parties.
pub broadcast_key-ne-p2p_key :
    (i j to : ℕ) (round round' uuid uuid' : Text)
    → IsDashless round
    → ¬ All IsDigit round
    → broadcast_key i round uuid ≢ p2p_key j to round' uuid'
unfolding broadcast_key p2p_key
broadcast_key-ne-p2p_key i j to round round' uuid uuid' d letters e =
    let (_, rest) = number_first i j _ _ e in
    let (name, _) =
      first_dash round (to_text to) _ _ d (IsDashless-digits _ (to_text-All to)) rest in
    letters (rw name (to_text-All to))

digits-ne-cons : (c : ℕ) (s r rest : Text) → All IsDigit s → s ≢ [] → 57 < c → s ++ r ≢ c ∷ rest
digits-ne-cons c [] r rest a n h e = n refl
digits-ne-cons c (d ∷ s) r rest a n h e = ground arith

-- No broadcast and no message between parties has the key of a signing room or of the signups for a
-- key generation: the keys of messages begin with a digit.
pub messages_spare_signups :
    (i to : ℕ) (round uuid : Text) (request : PartySignupRequestBody) (curve : Text)
    → (broadcast_key i round uuid ≢ sign_key request)
      × (broadcast_key i round uuid ≢ keygen_key curve)
      × (p2p_key i to round uuid ≢ sign_key request)
      × (p2p_key i to round uuid ≢ keygen_key curve)
unfolding broadcast_key p2p_key
messages_spare_signups i to round uuid request curve =
    (letter _ _, letter _ _, letter _ _, letter _ _)
  where
    letter : (r rest : Text) → to_text i ++ r ≢ b's' ∷ rest
    letter r rest =
        digits-ne-cons b's' (to_text i) r rest (to_text-All i) (to_text-ne-nil i) (omega arith)
