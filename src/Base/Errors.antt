-- ===== src/Base/Errors.antt =====
-- Go's `error` values and `errors.Join`; a nil error is `none`.
use Prim.Native.Nat.{ℕ}
use Prim.Native.String.{String}
use mathlib.Core.Path.{◌≡◌, refl}
use mathlib.Core.List.{List}
use mathlib.Core.Option.{Option, none, some}
use point_c.Base.Lists.{Bytes}

-- What a `%q`, `%d` or `%T` verb of an error text prints.
pub data ErrorArg : Type 0 where
  text : Bytes → ErrorArg
  num : ℕ → ErrorArg

pub data GoError : Type 0 where
  new : String → GoError
  errorf : String → List ErrorArg → GoError
  wrapf : String → List ErrorArg → GoError → GoError
  join_one : GoError → GoError
  join_two : GoError → GoError → GoError
  net_closed os_closed : GoError
  external : ℕ → GoError

-- `errors.Join(a, b)` drops nil errors, and is nil if both are.
abbrev pub join : Option GoError → Option GoError → Option GoError
join none none = none
join none (some b) = some (join_one b)
join (some a) none = some (join_one a)
join (some a) (some b) = some (join_two a b)

-- `(value, error)` of a function that returns no value beside an error, or a run-time panic.
pub data Result {ℓ} (A : Type ℓ) : Type ℓ where
  ok : A → Result A
  err : GoError → Result A
  panic : Result A

-- `if err != nil { return err }`, and what follows it.
infixl 5 ◌>>=◌
abbrev pub ◌>>=◌ {ℓ κ} : {A : Type ℓ} {V : Type κ} → Result A → (A → Result V) → Result V
panic >>= next = panic
err e >>= next = err e
ok x >>= next = next x

pub >>=-eq-ok {ℓ κ} :
    {A : Type ℓ} {V : Type κ} (first : Result A) (next : A → Result V) {v : V}
    → (first >>= next) ≡ ok v
    → (x : A) × (first ≡ ok x) × (next x ≡ ok v)
>>=-eq-ok panic next same = cc
>>=-eq-ok (err e) next same = cc
>>=-eq-ok (ok x) next same = (x, refl, same)

pub ok-injective {ℓ} : {A : Type ℓ} {a b : A} → ok a ≡ ok b → a ≡ b
ok-injective h = cc
