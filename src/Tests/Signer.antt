-- ===== src/Tests/Signer.antt =====
-- Round 0 of the signers of src/protocols/eddsa/signer.rs at two out of three parties, all of which
-- have joined and have the index 8.
use tss_ecdsa_cli.Base.{◌≤◌, ◌<◌, ◌≡◌, ◌⊎◌, codes, [], ◌∷◌, none, panic, bounds, arith}
use tss_ecdsa_cli.Protocols.Delivers.{Yields}
use tss_ecdsa_cli.Eddsa.Signer.{signer_indices}
use tss_ecdsa_cli.Eddsa.Signer.Indices.{signer_indices_lem}
use tss_ecdsa_cli.Tests.Web.{wire}
use tss_ecdsa_cli.Tests.Served.{party}
use tss_ecdsa_cli.Tests.Mailbox.{mailbox, Anytime, mailbox-Delivers}
use tss_ecdsa_cli.Tests.Library.{number_json, number_json-IsJson, seven_text}
use tss_ecdsa_cli.Tests.Keygen.{thirty}

-- The party that is the third to join.
signer_indices_lem_example :
    ((◌≤◌ 3 2)
      × Yields
          (mailbox seven_text)
          wire
          party
          Anytime
          (8 ∷ 8 ∷ [], 8)
          (signer_indices
            (mailbox seven_text)
            wire
            none
            1
            number_json
            party
            3
            1
            (codes "id")
            8
            3
            100))
    ⊎ ((◌<◌ 2 3)
        × (signer_indices
              (mailbox seven_text)
              wire
              none
              1
              number_json
              party
              3
              1
              (codes "id")
              8
              3
              100
            ≡ panic bounds))
signer_indices_lem_example =
    signer_indices_lem (λ i. 8) (λ i. omega arith) (λ i. omega arith) 1 3 3 (omega arith)
      (omega arith) (mailbox seven_text) wire party none 0 number_json (codes "id") 100 thirty
      number_json-IsJson (omega arith)
      (mailbox-Delivers seven_text 3 2 25 (codes "round0") (codes "id")) tt
