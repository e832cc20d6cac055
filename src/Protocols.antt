-- ===== src/Protocols.antt =====
-- What the two protocols share: the rounds in which every party sends a value to all others
-- (src/protocols/eddsa/signer.rs, src/protocols/ecdsa/signer.rs), the proofs of discrete logarithms
-- and the common chain code (src/protocols/mod.rs).
pub mod Gathered
pub mod Rounds
pub mod Proofs
pub mod Delivers
pub mod Shares
pub mod Sends
pub mod Others
pub mod Loops
pub mod Padded
pub mod Numbers
pub mod Encrypted
pub mod Opened
pub mod Sealing
pub mod Short
pub mod Agreed
use tss_ecdsa_cli.Base.{
  ℕ, zero, suc, ◌+◌, ◌-◌, Text, codes, List, [], ◌∷◌, ◌++◌, length, get_elem?, foldl, Option, none,
  some, Bool, true, false, ltb, ◌==◌, if◌then◌else◌, Run, ret, panic, bounds, unwrap, ◌>>=◌, ◌>>◌,
  unwrap_option, at_index, assert, Result, ok, err,
}
use tss_ecdsa_cli.Manager.Store.{Json}
use tss_ecdsa_cli.Client.{Client, range, broadcast, poll_for_broadcasts}

module _ {T : Type 0} (json : Json T) where
  -- The loop that puts the party's own value among the answers, `j` being the next answer.
  unfoldable pub collect : ℕ → T → List Text → ℕ → List ℕ → Run (List T)
  collect party_num value answers j [] = ret []
  collect party_num value answers j (i ∷ is) =
      if i == party_num
      then (do rest ← collect party_num value answers j is; ret (value ∷ rest))
      else (do
        text ← at_index (get_elem? answers j)
        value_j ← unwrap_option (json.from_str text)
        rest ← collect party_num value answers (suc j) is
        ret (value_j ∷ rest))

  -- The loop over `1..ans_vec.len() + 2`, onto the values that are in `new_vec`.
  unfoldable pub format_vec_from_reads : List Text → ℕ → T → List T → Run (List T)
  unfolding collect
  format_vec_from_reads ans_vec party_num value_i new_vec = do
    values ← collect party_num value_i ans_vec 0 (range 1 (length ans_vec + 1))
    ret (new_vec ++ values)

  -- `.iter().map(|m| serde_json::from_str(m).unwrap()).collect()`.
  unfoldable pub decode_all : List Text → Run (List T)
  decode_all [] = ret []
  decode_all (m ∷ ms) = do
    value ← unwrap_option (json.from_str m)
    rest ← decode_all ms
    ret (value ∷ rest)

-- `Vec::insert`, which panics beyond the end.
unfoldable pub insert_at {ℓ} : {A : Type ℓ} → ℕ → A → List A → Run (List A)
insert_at zero a l = ret (a ∷ l)
insert_at (suc i) a [] = panic bounds
insert_at (suc i) a (b ∷ l) = do rest ← insert_at i a l; ret (b ∷ rest)

-- `Error`.
pub data Error : Type 0 where
  invalid_key : Error

module _ {Proof : Type 0} (verify : Proof → Bool) where
  -- `all` over the indices, which stops at the first proof that fails.
  unfoldable pub all_verified : List Proof → ℕ → ℕ → Run Bool
  all_verified proofs i zero = ret true
  all_verified proofs i (suc k) = do
    proof ← at_index (get_elem? proofs i)
    let rest = all_verified proofs (suc i) k
    if verify proof then rest else ret false

  unfoldable pub verify_dlog_proofs : ℕ → List Proof → ℕ → Run (Result (Unit {0}) Error)
  unfolding all_verified
  verify_dlog_proofs share_count dlog_proofs_vec y_vec_len = do
    assert (y_vec_len == share_count)
    assert (length dlog_proofs_vec == share_count)
    xi_dlog_verify ← all_verified dlog_proofs_vec 0 y_vec_len
    ret (if xi_dlog_verify then ok tt else err invalid_key)

-- `expect` and `unwrap` of a `Result`.
abbrev pub unwrap_result {ℓ κ} : {A : Type ℓ} {E : Type κ} → Result A E → Run A
unwrap_result (ok a) = ret a
unwrap_result (err e) = panic unwrap

-- `is_ok`.
abbrev pub is_ok {ℓ κ} : {A : Type ℓ} {E : Type κ} → Result A E → Bool
is_ok (ok a) = true
is_ok (err e) = false

-- `split_at(1)` and the `fold` of the tail from the head.
unfoldable pub fold_from_head {ℓ} : {A : Type ℓ} → (A → A → A) → List A → Run A
fold_from_head add [] = panic bounds
fold_from_head add (head ∷ tail) = ret (foldl add head tail)

-- `expect` of a check that a library makes.
abbrev pub accepted : Bool → Run (Unit {0})
accepted true = ret tt
accepted false = panic unwrap
