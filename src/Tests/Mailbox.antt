-- ===== src/Tests/Mailbox.antt =====
-- A network in which every message is there from the start, and all messages are one text. Whoever
-- signs up for a key generation is party 2, and whoever joins a signing room is the second of three.
use tss_ecdsa_cli.Base.{
  ℕ, List, [], ◌∷◌, ◌+◌, ◌≤◌, refl, Text, text_eq, codes, some, if◌then◌else◌, ok, arith,
}
use tss_ecdsa_cli.Client.Keys.{broadcast_key, p2p_key}
use tss_ecdsa_cli.Client.Web.{Network, IsTimed}
use tss_ecdsa_cli.Client.{range, sendp2p, broadcast, get_entry}
use tss_ecdsa_cli.Client.Delivered.{ask_answered}
use tss_ecdsa_cli.Protocols.Gathered.{others}
use tss_ecdsa_cli.Protocols.Delivers.{Yields, Reads, Sends, Delivers, Swaps}
use tss_ecdsa_cli.Tests.Web.{wire, set_reply-IsJson, get_reply-IsJson}
use tss_ecdsa_cli.Tests.Served.{party}

abbrev reply_text : Text → Text → Text → Text
reply_text message url body =
    if text_eq url (codes "m/get")
    then wire.get_reply.to_string (ok (record { key = body; value = message }))
    else if text_eq url (codes "m/signupkeygen")
    then wire.keygen_reply.to_string (ok (record { number = 2; uuid = codes "id" }))
    else if text_eq url (codes "m/signupsign")
    then wire.sign_reply.to_string (
        ok (record {
          party_order = 2;
          party_uuid = codes "u";
          room_uuid = codes "id";
          total_joined = 3;
        }))
    else wire.set_reply.to_string (ok tt)

later : (d w : ℕ) → w + d ≤ w + d
later d w = omega arith

-- The world is the time.
abbrev pub mailbox : Text → Network
mailbox message = record {
  World = ℕ;
  clock = λ w. w;
  system_clock = λ w. w;
  request = λ url body w. (some (some (reply_text message url body)), w);
  wait = λ d w. w + d;
}

not_earlier : (w : ℕ) → w ≤ w
not_earlier w = omega arith

pub mailbox-IsTimed : (message : Text) → IsTimed (mailbox message)
mailbox-IsTimed message = record {
  request_takes_time = λ url body w. not_earlier w;
  wait_takes_time = λ d w. not_earlier (w + d);
}

abbrev pub Anytime : ℕ → Type 0
Anytime w = Unit {0}

module _ (message : Text) where
  mailbox-Reads :
      (delay : ℕ) (key : ℕ → Text) (is : List ℕ) (w : ℕ)
      → Reads (mailbox message) wire party Anytime delay key (λ i. message) is w
  unfolding text_eq get_entry
  mailbox-Reads delay key [] w = tt
  mailbox-Reads delay key (i ∷ is) w = (
    w + delay,
    ask_answered (mailbox message) wire.get_reply party (codes "get") (key i) (w + delay) _ _ refl
        (get_reply-IsJson.from_str-to_string _),
    mailbox-Reads delay key is (w + delay),
  )

  pub mailbox-Delivers :
      (p n delay : ℕ) (round uuid : Text)
      → Delivers (mailbox message) wire party Anytime Anytime p n delay round uuid (λ i. message)
  unfolding text_eq broadcast
  mailbox-Delivers p n delay round uuid = record {
    sends = λ w h. (
      w,
      ask_answered (mailbox message) wire.set_reply party (codes "set")
          (wire.entry.to_string (record { key = broadcast_key p round uuid; value = message })) w _
          _ refl (set_reply-IsJson.from_str-to_string (ok tt)),
      mailbox-Reads delay _ _ w,
    );
  }

  mailbox-Sends :
      (After : ℕ → Type 0) (p : ℕ) (round uuid : Text) (is : List ℕ) (w : ℕ)
      → After w
      → Sends (mailbox message) wire party After p round uuid (λ i. message) is w
  unfolding text_eq sendp2p
  mailbox-Sends After p round uuid [] w h = h
  mailbox-Sends After p round uuid (i ∷ is) w h = (
    w,
    ask_answered (mailbox message) wire.set_reply party (codes "set")
        (wire.entry.to_string (record { key = p2p_key p i round uuid; value = message })) w _ _ refl
        (set_reply-IsJson.from_str-to_string (ok tt)),
    mailbox-Sends After p round uuid is w h,
  )

  pub mailbox-Swaps :
      (p n delay : ℕ) (round uuid : Text)
      → Swaps (mailbox message) wire party Anytime Anytime p n delay round uuid (λ i j. message)
  mailbox-Swaps p n delay round uuid = record {
    sends = λ w h.
        mailbox-Sends
          (Reads (mailbox message) wire party Anytime delay (λ i. p2p_key i p round uuid)
            (λ i. message) (others p (range 1 n)))
          p round uuid (others p (range 1 n)) w
          (mailbox-Reads delay (λ i. p2p_key i p round uuid) (others p (range 1 n)) w);
  }

  pub mailbox_accepts :
      (p : ℕ) (round uuid : Text) (j : ℕ) (text : Text) (w : ℕ)
      → Anytime w
      → Yields
          (mailbox message)
          wire
          party
          Anytime
          (ok tt)
          (sendp2p (mailbox message) wire party p j round text uuid w)
  unfolding text_eq sendp2p
  mailbox_accepts p round uuid j text w h = (
    w,
    ask_answered (mailbox message) wire.set_reply party (codes "set")
        (wire.entry.to_string (record { key = p2p_key p j round uuid; value = text })) w _ _ refl
        (set_reply-IsJson.from_str-to_string (ok tt)),
    tt,
  )
