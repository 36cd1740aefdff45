-- ===== src/Exec.antt =====
-- Code that may raise and that changes the process: a state monad whose state survives a raise.
pub mod Keeps
pub mod Stages
pub mod Takes
pub mod Triples
pub mod Returns
use krb5_token_service.Prelude.{
  ℕ, ◌+◌, suc, Bool, true, false, Option, none, some, List, [], ◌∷◌, ◌++◌, if◌then◌else◌, Text,
  codes, length,
}
use krb5_token_service.Prelude.Dict
use krb5_token_service.Prelude.Dict.{Dict}
use krb5_token_service.Python.Utf8.{Bytes}
use krb5_token_service.Errors.{Failure, os_error, Result, ok, raised}
use krb5_token_service.World.{World, Event, noted, Files, File, Outside}

abbrev pub Exec : Type 0 → Type 0
Exec A = World → Result A × World

module _ {A : Type 0} where
  unfoldable pub pure : A → Exec A
  pure a w = (ok a, w)

  unfoldable pub raise : Failure → Exec A
  raise f w = (raised f, w)

  unfoldable pub lift : Result A → Exec A
  lift r w = (r, w)

  unfoldable pub gets : (World → A) → Exec A
  gets f w = (ok (f w), w)

  abbrev pub handle_with : (Failure → Exec A) → Result A → Exec A
  handle_with h (ok a) w = (ok a, w)
  handle_with h (raised f) w = h f w

  -- `try: m` with `except` clauses, which raise again what they do not catch
  unfoldable pub catch : Exec A → (Failure → Exec A) → Exec A
  catch m h w = let (r, w') = m w in handle_with h r w'

  -- `try: m finally: n`, where `n` raises nothing
  unfoldable pub finally : Exec A → (World → World) → Exec A
  finally m n w = let (r, w') = m w in (r, n w')

unfoldable pub modify : (World → World) → Exec (Unit {0})
modify f w = (ok tt, f w)

module _ {A B : Type 0} where
  abbrev pub continue : Result A → (A → Exec B) → Exec B
  continue (ok a) f w = f a w
  continue (raised e) f w = (raised e, w)

  infixl 10 ◌>>=◌ ◌>>◌
  unfoldable pub ◌>>=◌ : Exec A → (A → Exec B) → Exec B
  ◌>>=◌ m f w = let (r, w') = m w in continue r f w'

  abbrev pub ◌>>◌ : Exec A → Exec B → Exec B
  m >> n = m >>= λ _. n
