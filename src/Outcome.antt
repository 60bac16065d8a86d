-- ===== src/Outcome.antt =====
-- How a piece of the C program can end: with its value, or by stopping the process.
use twebs.Prelude.{ℕ, Bytes}

-- A program that `execve` starts: its file, what `setenv` added to the environment, and what waits
-- on its standard input where that was redirected. Its standard output is the connection.
pub record Program : Type 0 where
  pub file : Bytes
  pub name : Bytes
  pub value : Bytes
  pub stdin : Bytes

-- `undefined` is undefined behaviour: a write past an array, a null pointer. `out_of_fuel` says
-- that a loop is still under way when the fuel that the model gives it is spent.
pub data Stop : Type 0 where
  exit : ℕ → Stop
  exec : Program → Stop
  undefined : Stop
  out_of_fuel : Stop

pub data Outcome {ℓ} (A : Type ℓ) : Type ℓ where
  done : A → Outcome A
  stopped : Stop → Outcome A

pattern abbrev pub exited {ℓ} : {A : Type ℓ} → ℕ → Outcome A
exited c = stopped (exit c)

pattern abbrev pub fault {ℓ} : {A : Type ℓ} → Outcome A
fault = stopped undefined

pattern abbrev pub running {ℓ} : {A : Type ℓ} → Outcome A
running = stopped out_of_fuel

-- How the `main` of a C++ program ends: with the status that `main` returns, or by a failed assertion.
pub data End : Type 0 where
  returns : ℕ → End
  aborts : End
