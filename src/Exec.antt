-- ===== src/Exec.antt =====
-- A service method: it changes the world and may raise. The state comes back beside the error,
-- since what was sent to Redis stays sent; the tables are restored where the transaction ends.
use uvipystock.Prelude.{Bool, true, false, List, ◌++◌, Option, none, some}
use uvipystock.Model.{World}
use uvipystock.Redis.{Command}

pub data Error : Type 0 where
  value_error runtime_error assertion_error : Error
  insufficient_balance version_conflict : Error
  order_validation order_not_found order_not_cancelable : Error

pub data Result (A : Type 0) : Type 0 where
  ok : A → Result A
  err : Error → Result A

abbrev pub Exec : Type 0 → Type 0
Exec A = World → Result A × World

module _ {A : Type 0} where
  abbrev pub pure : A → Exec A
  pure a w = (ok a, w)

  abbrev pub raise : Error → Exec A
  raise e w = (err e, w)

  abbrev pub gets : (World → A) → Exec A
  gets f w = (ok (f w), w)

  abbrev pub or_raise : Option A → Error → Exec A
  or_raise none e = raise e
  or_raise (some a) _ = pure a

abbrev pub bind_result : {A B : Type 0} → Result A → World → (A → Exec B) → Result B × World
bind_result (ok a) w f = f a w
bind_result (err e) w f = (err e, w)

infixl 5 ◌>>=◌ ◌>>◌
abbrev pub ◌>>=◌ : {A B : Type 0} → Exec A → (A → Exec B) → Exec B
◌>>=◌ m f w = let (r, w') = m w in bind_result r w' f

abbrev pub ◌>>◌ : {A B : Type 0} → Exec A → Exec B → Exec B
m >> k = m >>= λ _. k

abbrev pub raise_if : Bool → Error → Exec (Unit {0})
raise_if true e = raise e
raise_if false e = pure tt

abbrev pub when : Bool → Exec (Unit {0}) → Exec (Unit {0})
when true m = m
when false m = pure tt

abbrev pub modify : (World → World) → Exec (Unit {0})
modify f w = (ok tt, f w)

-- Commands go to Redis in the order of the calls.
abbrev pub send : List Command → Exec (Unit {0})
send cs w = (ok tt, record w { commands = w.commands ++ cs })

-- `try: m except e: handler(e)`; what `m` did before it raised stays done.
abbrev pub catch : {A : Type 0} → Exec A → (Error → Exec A) → Exec A
catch m handler w = let (r, w') = m w in elim r [ ok a ↦ (ok a, w') | err e ↦ handler e w' ]

-- `async with session.begin()`: an exception rolls the tables back, and leaves Redis alone.
abbrev pub commit : {A : Type 0} → Result A → World → World → Result A × World
commit (ok a) before after = (ok a, after)
commit (err e) before after = (err e, record before { commands = after.commands })

unfoldable pub transaction : {A : Type 0} → Exec A → Exec A
transaction m w = commit (m w).0 w (m w).1
