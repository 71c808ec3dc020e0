-- ===== src/Controllers/Exec.antt =====
-- Code of a reconciler that may stop with an error: `if err != nil { return ctrl.Result{}, err }`
-- is the bind. What was written before the error stays written.
pub mod Total
pub mod Reaches
use ocp_efa_operator.Prelude.{ℕ, String, List, ◌≡◌, refl}
use ocp_efa_operator.Api.Client.{ApiError, Result, ok, err}
use ocp_efa_operator.Controllers.Action.{Action}

-- The world behind the client, and the reconciler's field `backOffDuration`; a nil map is an empty one.
pub record State (W : Type 0) : Type 0 where
  pub world : W
  pub back_off_duration : List (String × ℕ)

abbrev pub Exec {ℓ} : Type 0 → Type ℓ → Type ℓ
Exec W A = Action (State W) (Result A)

abbrev pub continue {ℓ κ} :
    {W : Type 0} {A : Type ℓ} {B : Type κ} → (A → Exec W B) → Result A → Exec W B
continue f (ok a) s = f a s
continue f (err e) s = (err e, s)

infixl 5 ◌>>=◌
abbrev pub ◌>>=◌ {ℓ κ} :
    {W : Type 0} {A : Type ℓ} {B : Type κ} → Exec W A → (A → Exec W B) → Exec W B
◌>>=◌ m f s = let (r, s') = m s in continue f r s'

abbrev pub return {ℓ} : {W : Type 0} {A : Type ℓ} → A → Exec W A
return a s = (ok a, s)

abbrev pub raise {ℓ} : {W : Type 0} {A : Type ℓ} → ApiError → Exec W A
raise e s = (err e, s)

-- A call of the client whose error ends the reconciliation.
abbrev pub call {ℓ} : {W : Type 0} {A : Type ℓ} → Action W (Result A) → Exec W A
call m s = let (a, w) = m s.world in (a, record s { world = w })

-- A call of the client whose result, errors too, is looked at.
abbrev pub run {ℓ} : {W : Type 0} {A : Type ℓ} → Action W A → Exec W A
run m s = let (a, w) = m s.world in (ok a, record s { world = w })

-- Returning a value after a call leaves the state of the call, also where the call failed.
pub continue-return {ℓ κ} :
    {W : Type 0} {A : Type ℓ} {B : Type κ} (f : A → B) (a : Result A) (s : State W)
    → (continue {W = W} {A = A} {B = B} (λ x. return (f x)) a s).1 ≡ s
continue-return f (ok a) s = refl
continue-return f (err e) s = refl

-- A step that succeeded comes from a value of the step before it.
pub continue-ok :
    {W A B : Type 0} (f : A → Exec W B) (a : Result A) (s : State W) (b : B)
    → (continue f a s).0 ≡ ok b
    → (x : A) × (a ≡ ok x) × (continue f a s ≡ f x s)
continue-ok f (ok x) s b h = (x, refl, refl)
continue-ok f (err e) s b h = cc
