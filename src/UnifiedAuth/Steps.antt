-- ===== src/UnifiedAuth/Steps.antt =====
-- src/lib/api-auth.ts: a part of the wrapper continues, answers early through `finish`, or throws into
-- the catch of the wrapper. What the log entry will name is part of the state.
use openipaas.Prelude.{String, Option, some}
use openipaas.Providers.Http.{Thrown}
use openipaas.UnifiedAuth.Defs.{Server, Response}

pub record Progress (J W : Type 0) : Type 0 where
  pub server : Server J W
  pub client_id : Option String
  pub linked_account_id : Option String
  pub provider : Option String

pub data Step (J A : Type 0) : Type 0 where
  continue : A → Step J A
  answer : Response J → (code : Option String) → Step J A
  raise : Thrown → Step J A

abbrev pub Exec : Type 0 → Type 0 → Type 0 → Type 0
Exec J W A = Progress J W → Step J A × Progress J W

module _ {J W A : Type 0} where
  abbrev pub pure : A → Exec J W A
  pure a p = (continue a, p)

  abbrev pub refuse : Response J → String → Exec J W A
  refuse response code p = (answer response (some code), p)

  abbrev pub fail : Thrown → Exec J W A
  fail error p = (raise error, p)

module _ {J W A B : Type 0} where
  abbrev pub then_do : Step J A → (A → Exec J W B) → Exec J W B
  then_do (continue a) f p = f a p
  then_do (answer response code) f p = (answer response code, p)
  then_do (raise error) f p = (raise error, p)

  infixl 5 ◌>>=◌
  abbrev pub ◌>>=◌ : Exec J W A → (A → Exec J W B) → Exec J W B
  ◌>>=◌ m f p = let (step, p') = m p in then_do step f p'

module _ {J W B : Type 0} where
  infixl 5 ◌>>◌
  abbrev pub ◌>>◌ : Exec J W (Unit {0}) → Exec J W B → Exec J W B
  m >> n = m >>= λ _. n
