-- ===== src/Task/Keeps.antt =====
-- Invariants of actions on a world, with a rule for each way to build an action.
use valyria.Common.{Bool, true, false, if◌then◌else◌}
use valyria.Task.World.{World, Result, ok, err, Exec, resume, pure, lift, gets, ◌>>=◌}

-- The action leaves `P` true, also when it ends in an error.
pub record Keeps {V A : Type 0} (P : World V → Type 0) (m : Exec V A) : Type 0 where
  pub holds : (w : World V) → P w → P (m w).1

module _ {V A : Type 0} {P : World V → Type 0} where
  pub Keeps-pure : (a : A) → Keeps P (pure {V = V} a)
  unfolding pure
  Keeps-pure a = record { holds = λ w p. p }

  pub Keeps-lift : (r : Result A) → Keeps P (lift {V = V} r)
  unfolding lift
  Keeps-lift r = record { holds = λ w p. p }

  pub Keeps-gets : (f : World V → A) → Keeps P (gets f)
  unfolding gets
  Keeps-gets f = record { holds = λ w p. p }

  pub Keeps-branch :
      (b : Bool) (m n : Exec V A) → Keeps P m → Keeps P n → Keeps P (if b then m else n)
  Keeps-branch true m n km kn = km
  Keeps-branch false m n km kn = kn

module _ {V A B : Type 0} {P : World V → Type 0} where
  Keeps-resume :
      (r : Result A) (f : A → Exec V B) → ((a : A) → Keeps P (f a)) → Keeps P (resume r f)
  Keeps-resume (ok a) f k = record { holds = λ w p. (k a).holds w p }
  Keeps-resume (err e) f k = record { holds = λ w p. p }

  pub Keeps-bind :
      (m : Exec V A) (f : A → Exec V B) → Keeps P m → ((a : A) → Keeps P (f a)) → Keeps P (m >>= f)
  unfolding ◌>>=◌
  Keeps-bind m f km kf = record {
    holds = λ w p. (Keeps-resume (m w).0 f kf).holds (m w).1 (km.holds w p);
  }

pub ruleset keeps_rules = (Keeps-pure, Keeps-lift, Keeps-gets, Keeps-branch, Keeps-bind)
