-- ===== src/Tests/Rounds.antt =====
-- A round of `exchange_data` of src/protocols/eddsa/signer.rs against the handlers of the manager.
use tss_ecdsa_cli.Base.{
  ℕ, ◌+◌, ◌≡◌, refl, sym, subst, codes, [], ◌∷◌, none, false, text_eq, ok, to_text,
}
use tss_ecdsa_cli.Manager.{set, get}
use tss_ecdsa_cli.Client.Keys.{broadcast_key}
use tss_ecdsa_cli.Client.{range, broadcast, ask, postb, attempts}
use tss_ecdsa_cli.Client.{get_entry as ask_entry}
use tss_ecdsa_cli.Protocols.Gathered.{others}
use tss_ecdsa_cli.Protocols.Delivers.{Yields, Reads, Delivers, exchange_data_lem}
use tss_ecdsa_cli.Protocols.Rounds.{exchange_data}
use tss_ecdsa_cli.Tests.Codec.{get_text, put_text}
use tss_ecdsa_cli.Tests.Web.{wire, get_entry, put_entry, get_reply, put_reply}
use tss_ecdsa_cli.Tests.Store.{empty_db}
use tss_ecdsa_cli.Tests.Served.{Site, site_network, party}
use tss_ecdsa_cli.Tests.Library.{number_json, number_json-IsJson}
use tss_ecdsa_cli.Tests.Keygen.{thirty}

abbrev silent : Site
silent = record { millis = 9000; manager = record { db = empty_db; poisoned = false } }

-- The broadcast of party `i` reaches the manager.
abbrev told_by : ℕ → Site → Site
told_by i w =
    (site_network.request (codes "m/set")
      (wire.entry.to_string (record {
        key = broadcast_key i (codes "round4") (codes "id");
        value = number_json.to_string (i + 6);
      }))
      w).1

-- The parties 1 and 3 have sent their broadcasts.
abbrev started : Site
started = told_by 3 (told_by 1 silent)

abbrev Started : Site → Type 0
Started w = w ≡ started

-- The lock is not poisoned, and 50 milliseconds have gone by.
abbrev Ended : Site → Type 0
Ended w = (w.manager.poisoned ≡ false) × (w.millis ≡ 9050)

-- From a world, the broadcast of party 2 is accepted, and the others' are there when it asks for them.
abbrev Answered : Site → Type 0
Answered w =
    Yields site_network wire party
      (Reads site_network wire party Ended 25 (λ i. broadcast_key i (codes "round4") (codes "id"))
        (λ i. number_json.to_string (i + 6)) (others 2 (range 1 3)))
      (ok tt)
      (broadcast site_network wire party 2 (codes "round4") (number_json.to_string 8) (codes "id")
        w)

Answered-started : Answered started
unfolding set get text_eq broadcast ask postb attempts ask_entry broadcast_key to_text get_entry
    put_entry get_text put_text get_reply put_reply
Answered-started = (_, refl, (_, refl, (_, refl, (refl, refl))))

served_round :
    Delivers site_network wire party Started Ended 2 3 25
      (codes "round4")
      (codes "id")
      (λ i. number_json.to_string (i + 6))
served_round = record { sends = λ w h. subst Answered (sym h) Answered-started }

exchange_data_lem_example : Yields site_network wire party Ended (7 ∷ 8 ∷ 9 ∷ []) (
    exchange_data site_network wire none 1 number_json party 2 3
      (codes "id")
      (codes "round4")
      25
      8
      started)
exchange_data_lem_example =
    exchange_data_lem site_network wire party none thirty 0 number_json number_json-IsJson 2 3 25
      (codes "round4") (codes "id") (λ i. i + 6) started served_round refl
