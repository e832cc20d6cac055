-- ===== src/Ecdsa/Signer/Opened.antt =====
-- The loops of `sign` in src/protocols/ecdsa/signer.rs where what the others sent can be read.
use tss_ecdsa_cli.Base.{
  subst, ℕ, suc, ◌+◌, ◌≡◌, refl, ap, Text, codes, List, [], ◌∷◌, map, Option, true, Bool-cases, inl,
  inr, ◌==◌, ret, arith,
}
use tss_ecdsa_cli.Manager.Store.{IsJson}
use tss_ecdsa_cli.Client.Web.{Network, Wire}
use tss_ecdsa_cli.Curves.{Curve}
use tss_ecdsa_cli.Protocols.Gathered.{others, others_own, others_other}
use tss_ecdsa_cli.Protocols.Delivers.{Yields, Sends, then_run-Yields}
use tss_ecdsa_cli.Protocols.Loops.{HasAt, ForOthers, ForOthers-own, ForOthers-first, ForOthers-next}
use tss_ecdsa_cli.Ecdsa.Library.{Library}
use tss_ecdsa_cli.Ecdsa.Signer.Crates.{SignLibrary, SignCodecs}
use tss_ecdsa_cli.Ecdsa.Signer.{open_round1, Answer}
use tss_ecdsa_cli.Ecdsa.Signer.Session.{Signing, send_answers}

module _ {curve : Curve} {lib : Library curve} (sl : SignLibrary lib) (json : SignCodecs sl) where
  module _ (laws : IsJson json.round1) (p : ℕ) (commitment : ℕ → sl.SignBroadcastPhase1)
      (m_a : ℕ → sl.MessageA) (answers : List Text) where
    abbrev text1 : ℕ → Text
    text1 i = json.round1.to_string (commitment i, m_a i)

    -- All commitments in the order of the parties, and the messages of the others.
    pub open_round1_lem :
        (j : ℕ) (is : List ℕ)
        → ForOthers p (HasAt answers text1) j is
        → open_round1 sl json p (commitment p) answers j is
          ≡ ret (map commitment is, map m_a (others p is))
    unfolding open_round1
    open_round1_lem j [] h = refl
    open_round1_lem j (i ∷ is) h = elim (Bool-cases (i == p)) [
      | inl own ↦ rw (others_own p i is own) (
          rw (own, open_round1_lem j is (ForOthers-own p (HasAt answers text1) j i is h own))
            (ap (λ q. ret (commitment q ∷ map commitment is, map m_a (others p is))) (same own)))
      | inr other ↦ rw (others_other p i is other) (
          rw
            (
              other,
              ForOthers-first p (HasAt answers text1) j i is h other,
              open_round1_lem (suc j) is (ForOthers-next p (HasAt answers text1) j i is h other),
            )
            (rw (laws.from_str-to_string (commitment i, m_a i))))
    ]
      where
        same : (i == p) ≡ true → p ≡ i
        same h = ground (arith, h)

  module _ (net : Network) (wire : Wire) (var : Option Text) (fuel : ℕ) (room : Signing)
      (P : net.World → Type 0) (answer : ℕ → Answer sl) (answers : List (Answer sl)) where
    abbrev text2 : ℕ → Text
    text2 i = json.round2.to_string ((answer i).0.0, (answer i).1.0)

    abbrev Left : List ℕ → net.World → Type 0
    Left = Sends net wire room.client P room.party_num_int (codes "round2") room.uuid text2

    -- Each other party is sent the answer to its own message.
    pub send_answers_lem :
        (j : ℕ) (is : List ℕ) (w : net.World)
        → ForOthers room.party_num_int (HasAt answers answer) j is
        → Left (others room.party_num_int is) w
        → Yields net wire room.client P tt
            (send_answers net wire var fuel sl json room answers j is w)
    unfolding send_answers
    send_answers_lem j [] w h before = (w, refl, before)
    send_answers_lem j (i ∷ is) w h before = elim (Bool-cases (i == room.party_num_int)) [
      | inl own ↦ rw own (
          send_answers_lem j is w
            (ForOthers-own room.party_num_int (HasAt answers answer) j i is h own)
            (subst (λ js. Left js w) (others_own room.party_num_int i is own) before))
      | inr other ↦
          rw (other, ForOthers-first room.party_num_int (HasAt answers answer) j i is h other)
            (then_run-Yields net wire room.client _ _
              (subst (λ js. Left js w) (others_other room.party_num_int i is other) before)
              (λ w1 h1. rw (one j) (
                send_answers_lem (suc j) is w1
                  (ForOthers-next room.party_num_int (HasAt answers answer) j i is h other) h1)))
    ]
      where
        one : (j : ℕ) → j + 1 ≡ suc j
        one j = omega arith
