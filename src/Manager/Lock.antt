-- ===== src/Manager/Lock.antt =====
-- The write guard of the handlers in src/common/manager.rs: a handler leaves the map as its body does.
use tss_ecdsa_cli.Base.{Run, Panic, ◌≡◌, refl, ret, panic, no_fuel, Ensures, if_both}
use tss_ecdsa_cli.Manager.Store.{TtlHashMap}
use tss_ecdsa_cli.Manager.{Manager, Locked, reading, with_write, released}

module _ (store : TtlHashMap) where
  -- A step that only reads: it fails and leaves the map, or what follows has the property.
  pub reading-cases :
      {A B : Type 0} (P : Locked store B → Type 0) (m : Run A) (hm : store.Map)
      (f : A → Locked store B)
      → ((p : Panic) → P (panic p, hm))
      → P (no_fuel, hm)
      → ((a : A) → m ≡ ret a → P (f a))
      → P (reading store m hm f)
  unfolding reading
  reading-cases P (ret a) hm f failed spent h = h a refl
  reading-cases P (panic p) hm f failed spent h = failed p
  reading-cases P no_fuel hm f failed spent h = spent

  pub reading-keeps :
      {A B : Type 0} (Q : A → Type 0) (P : store.Map → Type 0) (m : Run A) (hm : store.Map)
      (f : A → Locked store B)
      → P hm
      → Ensures Q m
      → ((a : A) → Q a → P (f a).1)
      → P (reading store m hm f).1
  unfolding reading
  reading-keeps Q P (ret a) hm f old q h = h a q
  reading-keeps Q P (panic p) hm f old q h = old
  reading-keeps Q P no_fuel hm f old q h = old

  released-keeps :
      {A : Type 0} (P : store.Map → Type 0) (m : Manager store) (r : Locked store A)
      → P r.1
      → P (released store m r).1.db
  released-keeps P m (ret a, db) h = h
  released-keeps P m (panic p, db) h = h
  released-keeps P m (no_fuel, db) h = h

  pub with_write-keeps :
      {A : Type 0} (P : store.Map → Type 0) (body : store.Map → Locked store A) (m : Manager store)
      → P m.db
      → P (body m.db).1
      → P (with_write store body m).1.db
  unfolding with_write
  with_write-keeps {A} P body m old h =
      if_both {A = Run A × Manager store} (λ r. P r.1.db) m.poisoned old
        (released-keeps P m (body m.db) h)
