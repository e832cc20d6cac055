-- ===== src/Tests/Store.antt =====
-- A map whose entries expire, in the place of the crate that src/common/manager.rs uses.
use tss_ecdsa_cli.Base.{
  ℕ, ◌+◌, ◌<◌, ◌≡◌, Text, text_eq, text_eq_refl, text_eq_iff, Option, none, some, ltb,
  if◌then◌else◌, arith,
}
use tss_ecdsa_cli.Manager.Store.{TtlHashMap, IsTtlHashMap}

-- A key gives its value and the instant of its insertion.
abbrev pub Timed : Type 0
Timed = Text → Option (Text × ℕ)

abbrev pub fresh : ℕ → ℕ → Option (Text × ℕ) → Option Text
fresh ttl now none = none
fresh ttl now (some (v, t)) = if ltb now (t + ttl) then some v else none

abbrev pub timed_store : ℕ → TtlHashMap
timed_store ttl = record {
  Map = Timed;
  get = λ now k m. fresh ttl now (m k);
  insert = λ now k v m j. if text_eq k j then some (v, now) else m j;
}

abbrev pub empty_db : Timed
empty_db k = none

found_in_time :
    (ttl now later : ℕ) (v : Text) → later < now + ttl → fresh ttl later (some (v, now)) ≡ some v
found_in_time ttl now later v h = ground arith

found_is_last : (ttl now later : ℕ) (v w : Text) → fresh ttl later (some (v, now)) ≡ some w → w ≡ v
found_is_last ttl now later v w h = ground arith

pub timed_store-IsTtlHashMap : (ttl : ℕ) → IsTtlHashMap (timed_store ttl) ttl
timed_store-IsTtlHashMap ttl = record {
  get-insert_self = λ m k v now later h l. rw (text_eq_refl k) (found_in_time ttl now later v l);
  get-insert_found =
      λ m k v w now later h e. found_is_last ttl now later v w (rw (text_eq_refl k) at e);
  get-insert_ne = λ m k j v now later h l. ground (arith, text_eq_iff k j);
}
