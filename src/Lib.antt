-- ===== src/Lib.antt =====
-- Verification of tss-ecdsa-cli, a command line for threshold signatures.
--
-- The program has two sides. A manager, a web server, keeps a map from keys to texts in which entries
-- live for some minutes; the parties of a protocol are its clients. They sign up at the manager for a
-- key generation or for a signing room, which gives them numbers and the UUID of the session, and
-- then send each other messages by entries in the map, round by round. On this stand the protocols: key
-- generation and signing for ECDSA and EdDSA, with keys that are derived along a path.
--
-- Base has the numbers, texts, lists, and `Run`: a value, a panic, or a loop that is out of fuel.
--
-- Common: the messages of src/common/mod.rs.
-- Room: src/common/signing_room.rs, a method of `SigningRoom` as the function of its name; `Clock` is
--   the reading of the time and of the environment that a request makes. Room/Members and Room/Activity
--   have what the methods do to the members and which of them are active; Room/Valid the invariant.
-- Manager: the handlers of src/common/manager.rs, `get`, `set`, `signup_keygen` and `signup_sign`. A handler
--   is a function of the state, which is the map behind the `RwLock` and whether a panic has poisoned
--   it; what a handler has written before a panic stays. Rocket runs a handler under the write guard, so handlers come one after the other, and a history
--   of requests is a list. The map of the crate `ttlhashmap` and `serde_json` are parameters with their
--   documented behaviour (Manager/Store); the UUIDs that a request draws are in its `Env`. Manager/Desk is
--   what a signing room promises, as a desk that gives out seats, without the order of the members and
--   the times of their pings; Manager/Seats and Manager/Places have the methods of a room and Manager/Refines `signup_sign` as
--   its moves.
-- Client: the client side of src/common/mod.rs, `postb`, `broadcast`, `sendp2p`, `poll_for_broadcasts`,
--   `poll_for_p2p`, `keygen_signup` and `signup`, as code with effects on a world (Client/Effects) whose HTTP
--   requests, sleeps and clocks are parameters (Client/Web). Client/Served says how the web server joins
--   the two sides: a request is answered by the handler of its path. A loop that waits runs on fuel, one
--   for each round of the loop; Client/Waiting has the fuel that is enough for the polls, Client/Admitted the
--   end of the wait for a room.
-- Digest: `sha256_digest` of src/common/mod.rs over the hash of `sha2`.
-- Cipher: `aes_encrypt` and `aes_decrypt` of src/common/mod.rs over the AES-GCM of `aes_gcm`.
-- Curves: what the program uses of `curv`. HdKeys: `get_hd_key` and `hd_key` of src/common/hd_keys.rs.
-- Protocols: src/protocols/mod.rs, with `exchange_data` of src/protocols/eddsa/signer.rs (Protocols/Rounds),
--   `format_vec_from_reads` of src/protocols/ecdsa/signer.rs, and the loops that send and open shares
--   (Protocols/Sends, Protocols/Shares). Protocols/Delivers says what it is that the messages of
--   a round arrive: that each is there when the party first asks for it, one after the other.
-- Ecdsa: src/protocols/ecdsa. Ecdsa/Library has the crates that it uses as parameters; Ecdsa/Keygen/Session is
--   `run_keygen` of keygen.rs, a function for each round, and what a party draws at random an argument.
--   Ecdsa/Signer has the steps of `sign` of signer.rs between its rounds, Ecdsa/Signer/Session a function for
--   each group of rounds, Ecdsa/Signer/Signature `sign` as a whole, Ecdsa/Signer/Crates its crates.
--   Ecdsa/Conversion is curv7_conversion.rs, Ecdsa/Pubkey the action `pubkey` of mod.rs, and Ecdsa/Commands
--   `run_pubkey_or_sign` with both actions; Ecdsa/CheckSig is `check_sig`.
-- Eddsa: src/protocols/eddsa. Eddsa/Library has its crates; Eddsa/Keygen/Session is `run_keygen` of keygen.rs;
--   Eddsa/Signer is round 0 of `run_signer` in signer.rs, Eddsa/Signer/Ephemeral and Eddsa/Signer/Session
--   its `eph_keygen_t_n_parties`, and Eddsa/Signer/Signature `run_signer` as a whole with `sign` of mod.rs.
--   Eddsa/Derived has `update_signature`, `update_hd_derived_public_key` and the key at a path, and
--   `run_pubkey` of mod.rs.
-- Files: reading and writing a file. Tests: the theorems at concrete inputs, with a small curve, a
--   map and codecs that are defined there.
--
-- Times are in milliseconds and a `u16` wraps or panics where it does in a release build. `println!` is
-- left out, and so is the start of the web server. Not modelled:
-- the command line in src/main.rs, which declares its arguments to the crate `clap` and hands them to the
-- functions above.
pub mod Base
pub mod Common
pub mod Room
pub mod Manager
pub mod Client
pub mod Cipher
pub mod Digest
pub mod Curves
pub mod HdKeys
pub mod Protocols
pub mod Files
pub mod Ecdsa
pub mod Eddsa
pub mod Tests
