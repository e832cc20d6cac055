-- ===== src/Ecdsa/Signer/Agreement.antt =====
-- A session of signers of src/protocols/ecdsa/signer.rs in which all messages arrive and the libraries
-- accept them: what each of them returns.
use tss_ecdsa_cli.Base.{ℕ, suc, ◌≤◌, ◌≡◌, refl, Text, codes, List, map, ret, ok}
use tss_ecdsa_cli.Common.{Params}
use tss_ecdsa_cli.Digest.{sha256_digest}
use tss_ecdsa_cli.Client.Web.{Network, Wire}
use tss_ecdsa_cli.Client.{Client, new, client_timeout}
use tss_ecdsa_cli.Client.Signup.{signup}
use tss_ecdsa_cli.Curves.{Curve, Bignum}
use tss_ecdsa_cli.Protocols.Delivers.{Yields, then_run-Yields}
use tss_ecdsa_cli.Ecdsa.{curve_name}
use tss_ecdsa_cli.Ecdsa.Library.{Library}
use tss_ecdsa_cli.Ecdsa.Signer.Crates.{SignLibrary, SignCodecs}
use tss_ecdsa_cli.Ecdsa.Signer.{create_sign_keys}
use tss_ecdsa_cli.Ecdsa.Signer.Honest.{
  SignDrawn, all, index_of, signer_of, sign_keys, IsAccepted, AreUpdated, at_path_lem,
  AreSignCodecs,
}
use tss_ecdsa_cli.Ecdsa.Signer.Arrives.{SignArrives}
use tss_ecdsa_cli.Ecdsa.Signer.Rounds.{
  room, previous_lem, removed, signer_at, ids_lem, exchange_reads_lem,
}
use tss_ecdsa_cli.Ecdsa.Signer.Products.{products_lem}
use tss_ecdsa_cli.Ecdsa.Signer.Phases.{point_lem, phase5_lem}
use tss_ecdsa_cli.Ecdsa.Signer.Signature.{SignedMessage, Timeouts, sign_in_room, sign}

module _ (net : Network) (wire : Wire) (client : Client) (vars : Timeouts) {curve : Curve}
    (bignum : Bignum) (to_hex : ℕ → Text) {lib : Library curve} (sl : SignLibrary lib)
    (json : SignCodecs sl) (d : SignDrawn sl) (uuid : Text) where
  -- What all signers return.
  abbrev pub signed_message : SignedMessage
  signed_message = record {
    r = to_hex (curve.to_bigint (sl.r d.signature));
    s = to_hex (curve.to_bigint (sl.s d.signature));
    recid = sl.recid d.signature;
    x = to_hex d.x;
    y = to_hex d.y;
    msg_int = bignum.from_bytes d.message;
  }

  module _ {timeout : ℕ} (t : client_timeout vars.poll ≡ ret timeout) (fuel p : ℕ) (low : 1 ≤ p)
      (high : p ≤ d.n) (laws : AreSignCodecs json) (h : IsAccepted bignum sl d p)
      (updated : AreUpdated bignum sl d d.sign_at_path p) {Stage : ℕ → net.World → Type 0}
      (arrives : SignArrives net wire client bignum sl json d uuid p Stage) where
    create_sign_keys_lem :
        create_sign_keys sl p (d.private p) d.schemes (map (index_of bignum sl d) (all bignum sl d))
        ≡ ret (sign_keys bignum sl d p)
    unfolding create_sign_keys
    create_sign_keys_lem =
        rw
          (
            previous_lem net wire client vars.poll bignum sl json d uuid t fuel p low high p low
                high,
            signer_at bignum sl d p low high p low high,
          )
          (rw (h.own_scheme p low high) refl)

    sign_in_room_lem :
        (w : net.World)
        → Stage 0 w
        → Yields net wire client (Stage 10) signed_message (
            sign_in_room bignum to_hex sl net wire vars
              (suc fuel)
              json
              (room net wire client vars.poll bignum sl json d uuid t fuel p low high)
              (signer_of bignum sl d p)
              w)
    unfolding sign_in_room
    sign_in_room_lem w before =
        then_run-Yields net wire client _ _
          (ids_lem net wire client vars.poll bignum sl json d uuid t fuel p low high laws h arrives
            w before)
          (λ w1 h1. rw (at_path_lem bignum sl d p updated) (
            rw create_sign_keys_lem (
              then_run-Yields net wire client _ _
                (products_lem net wire client vars.poll bignum sl json d uuid t fuel p low high laws
                  h arrives w1 h1)
                (λ w2 h2.
                  then_run-Yields net wire client _ _
                    (point_lem net wire client vars.poll bignum sl json d uuid t fuel p low high
                      laws h arrives w2 h2)
                    (λ w3 h3.
                      then_run-Yields net wire client _ _
                        (phase5_lem net wire client vars.poll bignum sl json d uuid t fuel p low
                          high laws h arrives w3 h3)
                        (λ w4 h4.
                          then_run-Yields net wire client _ _
                            (exchange_reads_lem net wire client vars.poll bignum sl json d uuid t
                              fuel p low high json.scalar laws.scalars (codes "round9") d.s_i w4
                              arrives.round9 h4)
                            (λ w5 h5. (
                              w5,
                              rw
                                  (
                                    removed net wire client vars.poll bignum sl json d uuid t fuel p
                                        low high d.s_i,
                                    h.one_signature,
                                    h.verifies,
                                    h.has_x,
                                    h.has_y,
                                  )
                                  refl,
                              h5,
                            ))))))))

    -- For a party `p` of an ECDSA signing session of `n` signers, numbered 1 to `n`, `n + 1` below
    -- 2 ^ 16: if the signup has given it its number, the UUID and the count of the signers, the
    -- codecs read back what they wrote, the timeout can be read, round by round, each message that
    -- `p` sends is accepted and each message of another party that it polls for is there when it
    -- first asks for it, what stands in the file at the index of each signer is what belongs to it,
    -- the schemes and the private key are those of the file, or, for a key at a path, those with
    -- the tweak (the scheme of the leader having as many commitments as the second one), and the
    -- libraries accept what `p` reads and come to the point and the signature that all share, then
    -- `sign` comes to its end, and returns that signature with the coordinates of the public key
    -- and the message, the same for every signer.
    pub sign_lem :
        (sha256 : List ℕ → List ℕ) (params : Params) (w w' : net.World)
        → signup net wire client vars.signup
            (suc fuel)
            (codes "signupsign")
            params
            (sha256_digest sha256 d.message)
            (d.ids p)
            curve_name
            w
          ≡ ret (ok (record { number = p; uuid = uuid }, d.n), w')
        → Stage 0 w'
        → Yields net wire client (Stage 10) signed_message (
            sign bignum to_hex sl net wire vars
              (suc fuel)
              json
              sha256
              client.address
              params
              (signer_of bignum sl d p)
              w)
    unfolding sign new
    sign_lem sha256 params w w' signed_up before = rw signed_up (sign_in_room_lem w' before)
