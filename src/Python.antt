-- ===== src/Python.antt =====
-- Python's exceptions, and methods that change an object and may raise. What was written before a
-- raise stays written, so the state comes back beside the error too.
pub mod Keeping
pub mod Running
use voodoo_skillset.Prelude.{String, Bool, true, false, Option, none, some, ◌≡◌}

-- The exceptions that the modelled code raises, with their messages.
pub data PyError : Type 0 where
  value_error permission_error runtime_error key_error type_error integrity_error overflow_error :
      String → PyError
  -- ExecutorProtocolError of executor_bridge.py, and its subclasses
  protocol_error auth_error policy_error : String → PyError

pub data Result (A : Type 0) : Type 0 where
  ok : A → Result A
  err : PyError → Result A

pub ok-injective : {A : Type 0} {a b : A} → ok a ≡ ok b → a ≡ b
ok-injective h = cc

-- A method of an object whose state is `S`.
abbrev pub Method : Type 0 → Type 0 → Type 0
Method S A = S → Result A × S

module _ {S : Type 0} {A : Type 0} where
  abbrev pub pure : A → Method S A
  pure a s = (ok a, s)

  abbrev pub raise : PyError → Method S A
  raise e s = (err e, s)

  -- `x` if it is not `None`, and otherwise a raise.
  abbrev pub or_raise : Option A → PyError → Method S A
  or_raise none e = raise e
  or_raise (some a) e = pure a

  abbrev pub gets : (S → A) → Method S A
  gets f s = (ok (f s), s)

infixl 5 ◌>>=◌ ◌>>◌
abbrev pub ◌>>=◌ : {S A B : Type 0} → Method S A → (A → Method S B) → Method S B
◌>>=◌ m f s = let (r, s') = m s in elim r [ ok a ↦ f a s' | err e ↦ (err e, s') ]

abbrev pub ◌>>◌ : {S A B : Type 0} → Method S A → Method S B → Method S B
m >> k = m >>= λ _. k

-- `if c: raise e`.
abbrev pub raise_if : {S : Type 0} → Bool → PyError → Method S (Unit {0})
raise_if true e s = (err e, s)
raise_if false e s = (ok tt, s)

abbrev pub modify : {S : Type 0} → (S → S) → Method S (Unit {0})
modify f s = (ok tt, f s)

-- `BEGIN IMMEDIATE … COMMIT`, with `except Exception: ROLLBACK; raise`.
abbrev pub settle : {S A : Type 0} → S → Result A × S → Result A × S
settle before (ok a, after) = (ok a, after)
settle before (err e, after) = (err e, before)

abbrev pub transaction : {S A : Type 0} → Method S A → Method S A
transaction m s = settle s (m s)
