-- ===== src/Files.antt =====
-- `std::fs`: a file's text, where it can be read, and a write, which may fail.
use tss_ecdsa_cli.Base.{Text, Option, none, some, ret, panic, unwrap}
use tss_ecdsa_cli.Client.Effects.{Io}

pub record Files (World : Type 0) : Type 0 where
  pub read_file : Text → World → Option Text
  pub write_file : Text → Text → World → Option World

-- `fs::read_to_string(path).expect(…)`.
abbrev pub read_to_string : {W : Type 0} → Files W → Text → Io W Text
read_to_string files path w = elim (files.read_file path w) [
  | none ↦ panic unwrap
  | some text ↦ ret (text, w)
]

-- `fs::write(path, text).expect(…)`.
abbrev pub write : {W : Type 0} → Files W → Text → Text → Io W (Unit {0})
write files path text w = elim (files.write_file path text w) [
  | none ↦ panic unwrap
  | some w' ↦ ret (tt, w')
]
