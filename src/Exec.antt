-- ===== src/Exec.antt =====
-- Python methods that change an object and may raise: what was changed before a raise stays changed.
-- errors.py: the exceptions, as the handlers of the program tell them apart.
use teamspeak_prometheus.Base.{Text, ◌≡◌, arith}

-- `ConnectionError`, `TimeoutError`, and any other `OSError`
pub data OsError : Type 0 where
  connection timeout other_os : OsError

-- `unexpected` stands for every other exception, a `KeyError` or a `StopIteration` for example.
pub data Exception : Type 0 where
  login_failed : Text → Exception
  server_query_error : Text → Exception
  os_error : OsError → Text → Exception
  unexpected : Exception

pub data Result {ℓ} (A : Type ℓ) : Type ℓ where
  ok : A → Result A
  err : Exception → Result A

abbrev pub Exec {ℓ} : Type ℓ → Type ℓ → Type ℓ
Exec S A = S → Result A × S

module _ {ℓ} {S A : Type ℓ} where
  abbrev pub pure : A → Exec S A
  pure a s = (ok a, s)

  abbrev pub raise : Exception → Exec S A
  raise e s = (err e, s)

module _ {ℓ} {S A B : Type ℓ} where
  abbrev pub continue : Result A × S → (A → Exec S B) → Result B × S
  continue (ok a, s) f = f a s
  continue (err e, s) f = (err e, s)

  infixl 10 ◌>>=◌ ◌>>◌
  abbrev pub ◌>>=◌ : Exec S A → (A → Exec S B) → Exec S B
  ◌>>=◌ m f s = continue (m s) f

  abbrev pub ◌>>◌ : Exec S A → Exec S B → Exec S B
  m >> n = m >>= λ _. n

  pub continue-ok :
      (r : Result A × S) (a : A) (f : A → Exec S B) → r.0 ≡ ok a → continue r f ≡ f a r.1
  continue-ok (ok b, s) a f e = ground arith
  continue-ok (err x, s) a f e = cc

  pub continue-err :
      (r : Result A × S) (x : Exception) (f : A → Exec S B)
      → r.0 ≡ err x
      → continue r f ≡ (err x, r.1)
  continue-err (ok b, s) x f e = cc
  continue-err (err y, s) x f e = ground arith
