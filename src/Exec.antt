-- ===== src/Exec.antt =====
-- Functions that change a state behind a lock and may fail. What was written before a failure
-- stays written, so the state comes back beside the error too.
use kotlogram.Base.{Bool, true, false}
use kotlogram.Error.{Error, Result, ok, err, poisoned}

abbrev pub Exec {ℓ κ} : Type ℓ → Type κ → Type (ℓ ⊔ κ)
Exec S A = S → Result A × S

-- A `std::sync::Mutex`: `lock` fails once a thread has panicked while it held the lock.
pub record Mutex {ℓ} (A : Type ℓ) : Type ℓ where
  pub is_poisoned : Bool
  pub value : A

abbrev pub unlocked {ℓ} : {A : Type ℓ} → A → Mutex A
unlocked a = record { is_poisoned = false; value = a }

-- mutex.lock().map_err(|_| "… is poisoned")
abbrev pub locked {ℓ} : {A : Type ℓ} → Mutex A → Result A
locked m = elim m.is_poisoned [ true ↦ err poisoned | false ↦ ok m.value ]

-- *mutex.lock()? = value
abbrev pub write {ℓ} : {A : Type ℓ} → Mutex A → A → Mutex A
write m a = record m { value = a }

module _ {ℓ κ} {S : Type ℓ} {A : Type κ} where
  abbrev pub pure : A → Exec S A
  pure a s = (ok a, s)

  abbrev pub fail : Error → Exec S A
  fail e s = (err e, s)

  abbrev pub lift : Result A → Exec S A
  lift r s = (r, s)

  -- A computation over the state that only reads it.
  abbrev pub reads : (S → Result A) → Exec S A
  reads f s = (f s, s)

module _ {ℓ} {S : Type ℓ} where
  abbrev pub modify : (S → S) → Exec S (Unit {0})
  modify f s = (ok tt, f s)

module _ {ℓ κ μ} {S : Type ℓ} {A : Type κ} {B : Type μ} where
  abbrev pub continue : Result A → (A → Exec S B) → Exec S B
  continue (ok a) f s = f a s
  continue (err e) f s = (err e, s)

  infixl 5 ◌>>=◌ ◌>>◌
  abbrev pub ◌>>=◌ : Exec S A → (A → Exec S B) → Exec S B
  ◌>>=◌ m f s = let (r, s') = m s in continue r f s'

  abbrev pub ◌>>◌ : Exec S A → Exec S B → Exec S B
  m >> k = m >>= λ _. k
