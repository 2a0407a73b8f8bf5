-- ===== src/Base/Run.antt =====
-- Calls that print and then return, or exit with status 1.
use mm_exper.Base.{[], ◌++◌}
use mm_exper.Base.Output.{Output}

pub data End {ℓ} (A : Type ℓ) : Type ℓ where
  exited : End A
  returned : A → End A

pub record Run {ℓ} (A : Type ℓ) : Type ℓ where
  pub out : Output
  pub end : End A

-- One call after another that has printed `first`.
abbrev pub then_run {ℓ κ} : {A : Type ℓ} {B : Type κ} → Run A → (A → Run B) → Run B
then_run a next = elim a.end [
  | exited ↦ record { out = a.out; end = exited }
  | returned x ↦ record { out = a.out ++ (next x).out; end = (next x).end }
]

abbrev pub print {ℓ} : {A : Type ℓ} → Output → A → Run A
print out x = record { out = out; end = returned x }

abbrev pub exit {ℓ} : {A : Type ℓ} → Run A
exit = record { out = []; end = exited }

-- A call that only prints.
abbrev pub say : Output → Run {0} Unit
say out = print out tt
