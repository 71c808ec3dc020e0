-- ===== src/Controllers/Action.antt =====
-- Code that changes a state: a function into the result and the new state. `Outcome` is the pair
-- `(requeue bool, err error)` of the functions that create something.
use ocp_efa_operator.Prelude.{Bool, true, false, Option, none, some}
use ocp_efa_operator.Api.Client.{ApiError}

abbrev pub Action {ℓ} : Type 0 → Type ℓ → Type ℓ
Action W A = W → A × W

infixl 5 ◌>>=◌
abbrev pub ◌>>=◌ {ℓ κ} :
    {W : Type 0} {A : Type ℓ} {B : Type κ} → Action W A → (A → Action W B) → Action W B
◌>>=◌ m f w = let (a, w') = m w in f a w'

abbrev pub pure {ℓ} : {W : Type 0} {A : Type ℓ} → A → Action W A
pure a w = (a, w)

abbrev pub Outcome : Type 0
Outcome = Bool × Option ApiError

abbrev pub continue : {W : Type 0} → Outcome → Action W Outcome → Action W Outcome
continue (false, none) rest = rest
continue (false, some e) rest = pure (false, some e)
continue (true, e) rest = pure (true, e)

-- `if requeue, err = m; requeue || err != nil { return }`, then the rest
infixr 4 ◌▹◌
abbrev pub ◌▹◌ : {W : Type 0} → Action W Outcome → Action W Outcome → Action W Outcome
m ▹ rest = do o ← m; continue o rest

abbrev pub continue_ok :
    {W : Type 0} → Option ApiError → Action W (Option ApiError) → Action W (Option ApiError)
continue_ok none rest = rest
continue_ok (some e) rest = pure (some e)

-- `if err = m; err != nil { return }`, then the rest
infixr 4 ◌▸◌
abbrev pub ◌▸◌ :
    {W : Type 0}
    → Action W (Option ApiError)
    → Action W (Option ApiError)
    → Action W (Option ApiError)
m ▸ rest = do e ← m; continue_ok e rest
