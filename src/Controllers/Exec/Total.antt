-- ===== src/Controllers/Exec/Total.antt =====
-- Code that raises no error, with what holds of its result.
use ocp_efa_operator.Prelude.{Bool, true, false, ◌≡◌, refl, if◌then◌else◌}
use ocp_efa_operator.Api.Client.{Result, ok, err}
use ocp_efa_operator.Controllers.Action.{Action}
use ocp_efa_operator.Controllers.Exec.{State, Exec, continue, ◌>>=◌, return, call, run}

-- The result is a value, and `P` holds of it.
abbrev pub Returns : {A : Type 0} → (A → Type 0) → Result A → Type 0
Returns P (ok a) = P a
Returns P (err e) = ⊥

pub record Total {W : Type 0} {A : Type 0} (P : A → Type 0) (m : Exec W A) : Type 0 where
  pub at : (s : State W) → Returns P (m s).0

module _ {W A : Type 0} (P : A → Type 0) where
  pub Total-return : (a : A) → P a → Total {W = W} P (return a)
  Total-return a h = record { at = λ s. h }

  pub Total-call : (m : Action W (Result A)) → ((w : W) → Returns P (m w).0) → Total P (call m)
  Total-call m h = record { at = λ s. h s.world }

  pub Total-run : (m : Action W A) → ((w : W) → P (m w).0) → Total P (run m)
  Total-run m h = record { at = λ s. h s.world }

  pub Total-if :
      (b : Bool) (m n : Exec W A)
      → (b ≡ true → Total P m)
      → (b ≡ false → Total P n)
      → Total P (if b then m else n)
  Total-if true m n hm hn = hm refl
  Total-if false m n hm hn = hn refl

module _ {W A B : Type 0} (P : A → Type 0) (Q : B → Type 0) where
  after :
      (f : A → Exec W B) (r : Result A) (s : State W)
      → Returns P r
      → ((a : A) → P a → Total Q (f a))
      → Returns Q (continue f r s).0
  after f (ok a) s h k = (k a h).at s
  after f (err e) s h k = h

  pub Total-bind :
      (m : Exec W A) (f : A → Exec W B)
      → Total P m
      → ((a : A) → P a → Total Q (f a))
      → Total Q (m >>= f)
  Total-bind m f hm hf = record { at = λ s. after f (m s).0 (m s).1 (hm.at s) hf }
