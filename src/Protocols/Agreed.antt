-- ===== src/Protocols/Agreed.antt =====
-- The common chain code of src/protocols/mod.rs, where all messages are there.
use tss_ecdsa_cli.Base.{
  ℕ, zero, suc, ◌-◌, ◌≤◌, ◌≡◌, refl, ap, ◌∙◌, Text, codes, List, [], ◌∷◌, map, foldl, Option, Bool,
  true, length, length-map, ==_iff, ret, ok, arith,
}
use tss_ecdsa_cli.Manager.Store.{Json, IsJson}
use tss_ecdsa_cli.Client.Web.{Network, Wire}
use tss_ecdsa_cli.Client.{Client, range, client_timeout}
use tss_ecdsa_cli.Curves.{Curve}
use tss_ecdsa_cli.Protocols.Numbers.{length-range}
use tss_ecdsa_cli.Protocols.{fold_from_head, verify_dlog_proofs}
use tss_ecdsa_cli.Protocols.Proofs.{every, verify_dlog_proofs_lem}
use tss_ecdsa_cli.Protocols.Rounds.{generate_shared_chain_code}
use tss_ecdsa_cli.Protocols.Delivers.{Yields, Delivers, then_run-Yields, exchange_data_lem}

pub every-map :
    {Proof : Type 0} (verify : Proof → Bool) (proof : ℕ → Proof)
    → ((i : ℕ) → verify (proof i) ≡ true)
    → (is : List ℕ) → every verify (map proof is) ≡ true
every-map verify proof h [] = refl
every-map verify proof h (i ∷ is) = rw (h i) (every-map verify proof h is)

-- The sum of what the parties 1 to n contribute, in their order.
abbrev pub total {ℓ} : {A : Type ℓ} → (A → A → A) → (ℕ → A) → ℕ → A
total add f n = foldl add (f 1) (map f (range 2 (n - 1)))

pub fold_from_head-map :
    {A : Type 0} (add : A → A → A) (f : ℕ → A) (n : ℕ)
    → 1 ≤ n
    → fold_from_head add (map f (range 1 n)) ≡ ret (total add f n)
unfolding fold_from_head
fold_from_head-map add f zero h = absurd (omega arith)
fold_from_head-map add f (suc k) h = ap (λ k. ret (foldl add (f 1) (map f (range 2 k)))) same
  where
    same : k ≡ suc k - 1
    same = omega arith

module _ (net : Network) (wire : Wire) (client : Client) (var : Option Text) {timeout : ℕ}
    (t : client_timeout var ≡ ret timeout) (fuel : ℕ) where
  -- If the timeout can be read, the codecs read back what they wrote, all proofs verify and, in
  -- both rounds, the broadcast of the party is accepted and that of each other party is there when
  -- the party first asks for it, then `generate_shared_chain_code` of `n` parties, at least one,
  -- returns the sum of the random scalars of all, in the order of the parties, whichever party runs
  -- it.
  pub generate_shared_chain_code_lem :
      (curve : Curve) {Proof : Type 0} (scalar_json : Json curve.Scalar) (proof_json : Json Proof)
      (verify : Proof → Bool) (chain_code : ℕ → curve.Scalar) (proof : ℕ → Proof) (p n delay : ℕ)
      (uuid : Text) {Start Proved Done : net.World → Type 0} (w : net.World)
      → IsJson scalar_json
      → IsJson proof_json
      → 1 ≤ n
      → ((i : ℕ) → verify (proof i) ≡ true)
      → Delivers net wire client Start Proved p n delay
          (codes "round0_chain_code")
          uuid
          (λ i. proof_json.to_string (proof i))
      → Delivers net wire client Proved Done p n delay
          (codes "round1_chain_code")
          uuid
          (λ i. scalar_json.to_string (chain_code i))
      → Start w
      → Yields net wire client Done (total curve.add_scalar chain_code n) (
          generate_shared_chain_code net wire var
            (suc fuel)
            curve
            scalar_json
            proof_json
            verify
            (chain_code p)
            (proof p)
            client
            p
            n
            uuid
            delay
            n
            w)
  unfolding generate_shared_chain_code
  generate_shared_chain_code_lem curve scalar_json proof_json verify chain_code proof p n delay uuid
        w scalars proofs some_party sound proving sharing start =
      then_run-Yields net wire client _ _
        (exchange_data_lem net wire client var t fuel proof_json proofs p n delay
          (codes "round0_chain_code") uuid proof w proving start)
        (λ w1 h1. rw (accepted) (
          then_run-Yields net wire client _ _
            (exchange_data_lem net wire client var t fuel scalar_json scalars p n delay
              (codes "round1_chain_code") uuid chain_code w1 sharing h1)
            (λ w2 h2. (w2, rw (fold_from_head-map curve.add_scalar chain_code n some_party), h2))))
    where
      count : length (map proof (range 1 n)) ≡ n
      count = length-map proof (range 1 n) ∙ length-range 1 n

      accepted : verify_dlog_proofs verify n (map proof (range 1 n)) n ≡ ret (ok tt)
      accepted =
          verify_dlog_proofs_lem verify n n (map proof (range 1 n))
          ∙ rw (count, every-map verify proof sound (range 1 n), (==_iff n n).1 refl)
