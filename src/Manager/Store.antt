-- ===== src/Manager/Store.antt =====
-- What the manager of src/common/manager.rs uses of other packages: the map of the crate
-- `ttlhashmap`, and `serde_json` at the two types that the manager keeps as text.
use tss_ecdsa_cli.Base.{ℕ, ◌+◌, ◌≤◌, ◌<◌, ◌≡◌, ◌≢◌, Text, Option, some}

-- `TtlHashMap<Key, String>`. An operation takes the instant of the call.
pub record TtlHashMap : Type 1 where
  pub Map : Type 0
  pub get : ℕ → Text → Map → Option Text
  pub insert : ℕ → Text → Text → Map → Map

-- Its documented behaviour: an entry is found until its time to live has passed, what is found
-- under a key is what was inserted last, and an insertion leaves the other keys alone.
pub record IsTtlHashMap (store : TtlHashMap) (ttl : ℕ) : Type 0 where
  pub get-insert_self :
      (m : store.Map) (k v : Text) (now later : ℕ)
      → now ≤ later
      → later < now + ttl
      → store.get later k (store.insert now k v m) ≡ some v
  pub get-insert_found :
      (m : store.Map) (k v w : Text) (now later : ℕ)
      → now ≤ later
      → store.get later k (store.insert now k v m) ≡ some w
      → w ≡ v
  pub get-insert_ne :
      (m : store.Map) (k j v : Text) (now later : ℕ)
      → k ≢ j
      → now ≤ later
      → store.get later j (store.insert now k v m) ≡ store.get later j m

-- `serde_json::to_string(…).unwrap()`, and `serde_json::from_str`, which fails on other text.
pub record Json (A : Type 0) : Type 0 where
  pub to_string : A → Text
  pub from_str : Text → Option A

-- What was written is read back.
pub record IsJson {A : Type 0} (json : Json A) : Type 0 where
  pub from_str-to_string : (a : A) → json.from_str (json.to_string a) ≡ some a
