-- ===== src/Chain/Monad.antt =====
-- A method of `State`: it returns or fails, and what was written before a failure stays written.
use vocdoni_node.Base.{◌≡◌, refl, ◌⊎◌, inl, inr, Bool, Option, none, some, if◌then◌else◌}
use vocdoni_node.Chain.Types.{State}
use vocdoni_node.Chain.Failure.{Error}

pub data Result {ℓ} (A : Type ℓ) : Type ℓ where
  ok : A → Result A
  err : Error → Result A

abbrev pub ⊤ : Type 0
⊤ = Unit

abbrev pub Exec : Type 0 → Type 0
Exec A = State → Result A × State

module _ {A : Type 0} where
  abbrev pub pure : A → Exec A
  pure a s = (ok a, s)

  abbrev pub raise : Error → Exec A
  raise e s = (err e, s)

  abbrev pub gets : (State → A) → Exec A
  gets f s = (ok (f s), s)

  -- A pure computation that may fail.
  abbrev pub lift : Result A → Exec A
  lift r s = (r, s)

  abbrev pub or_raise : Option A → Error → Exec A
  or_raise none e = raise e
  or_raise (some a) _ = pure a

infixl 5 ◌>>=◌ ◌>>◌
abbrev pub ◌>>=◌ : {A B : Type 0} → Exec A → (A → Exec B) → Exec B
◌>>=◌ m f s = let (r, s') = m s in elim r [ ok a ↦ f a s' | err e ↦ (err e, s') ]

abbrev pub ◌>>◌ : {A B : Type 0} → Exec A → Exec B → Exec B
m >> k = m >>= λ _. k

abbrev pub raise_if : Bool → Error → Exec ⊤
raise_if c e s = (if c then err e else ok tt, s)

-- `if c { m }`
abbrev pub when : Bool → Exec ⊤ → Exec ⊤
when c m = if c then m else pure tt

abbrev pub modify : (State → State) → Exec ⊤
modify f s = (ok tt, f s)

pub Result-cases {ℓ} :
    {A : Type ℓ} (r : Result A) → ((a : A) × (r ≡ ok a)) ⊎ ((e : Error) × (r ≡ err e))
Result-cases (ok a) = inl (a, refl)
Result-cases (err e) = inr (e, refl)
