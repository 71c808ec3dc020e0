-- ===== src/Controllers/Exec/Reaches.antt =====
-- Code that, from a state where one thing holds, raises no error and leaves another.
use ocp_efa_operator.Prelude.{Bool, true, false, ◌≡◌, refl, if◌then◌else◌}
use ocp_efa_operator.Api.Client.{Result, ok, err}
use ocp_efa_operator.Controllers.Action.{Action}
use ocp_efa_operator.Controllers.Exec.{State, Exec, continue, ◌>>=◌, return, call, run}

-- the result is a value, and `Q` holds of it and of the state
abbrev pub Ends {ℓ} :
    {W : Type 0} {A : Type ℓ} → (A → State W → Type 0) → Result A × State W → Type 0
Ends Q (ok a, s) = Q a s
Ends Q (err e, s) = ⊥

pub record Reaches {W A : Type 0} (P : State W → Type 0) (Q : A → State W → Type 0) (m : Exec W A)
    : Type 0 where
  pub at : (s : State W) → P s → Ends Q (m s)

module _ {W A : Type 0} (P : State W → Type 0) (Q : A → State W → Type 0) where
  pub Reaches-return : (a : A) → ((s : State W) → P s → Q a s) → Reaches P Q (return a)
  Reaches-return a f = record { at = f }

  pub Reaches-call :
      (m : Action W (Result A))
      → ((s : State W) → P s → Ends Q ((m s.world).0, record s { world = (m s.world).1 }))
      → Reaches P Q (call m)
  Reaches-call m f = record { at = f }

  pub Reaches-run :
      (m : Action W A)
      → ((s : State W) → P s → Q (m s.world).0 (record s { world = (m s.world).1 }))
      → Reaches P Q (run m)
  Reaches-run m f = record { at = f }

  pub Reaches-if :
      (b : Bool) (m n : Exec W A)
      → (b ≡ true → Reaches P Q m)
      → (b ≡ false → Reaches P Q n)
      → Reaches P Q (if b then m else n)
  Reaches-if true m n hm hn = hm refl
  Reaches-if false m n hm hn = hn refl

-- what holds of the state alone
pub Ends-state :
    {W A : Type 0} {Q : A → State W → Type 0} {P : State W → Type 0} (end : Result A × State W)
    → Ends Q end
    → ((a : A) (s : State W) → Q a s → P s)
    → P end.1
Ends-state (ok a, s) q f = f a s q
Ends-state (err e, s) q f = absurd q

module _ {W A : Type 0} (P : State W → Type 0) (Q R : A → State W → Type 0) where
  pub Ends-weaken :
      (end : Result A × State W) → ((a : A) (s : State W) → Q a s → R a s) → Ends Q end → Ends R end
  Ends-weaken (ok a, s) f q = f a s q
  Ends-weaken (err e, s) f q = q

  pub Reaches-weaken :
      (m : Exec W A) → ((a : A) (s : State W) → Q a s → R a s) → Reaches P Q m → Reaches P R m
  Reaches-weaken m f h = record { at = λ s p. Ends-weaken (m s) f (h.at s p) }

module _ {W A B : Type 0} (P : State W → Type 0) (Q : A → State W → Type 0)
    (R : B → State W → Type 0) where
  after :
      (f : A → Exec W B) (end : Result A × State W)
      → Ends Q end
      → ((a : A) → Reaches (Q a) R (f a))
      → Ends R (continue f end.0 end.1)
  after f (ok a, s) q hf = (hf a).at s q
  after f (err e, s) q hf = q

  pub Reaches-bind :
      (m : Exec W A) (f : A → Exec W B)
      → Reaches P Q m
      → ((a : A) → Reaches (Q a) R (f a))
      → Reaches P R (m >>= f)
  Reaches-bind m f hm hf = record { at = λ s p. after f (m s) (hm.at s p) hf }
