-- ===== src/Common/Equality.antt =====
-- `PartialEq` as an interface: a Boolean test that decides equality, and its instances.
use Prim.Native.Nat.{ℕ}
use Prim.Native.String.{String}
use mathlib.Core.Path.{◌≡◌, refl}
use mathlib.Core.Logic.{◌↔◌}
use mathlib.Core.Bool.{Bool, true, false}
use mathlib.Core.Option.{Option, none, some}
use native.Mathlib.Omega.{arith}
use text.Mathlib.Text.{◌==◌ as str_eqb}
use text.Mathlib.TextEquality.{eq_iff as str_eqb_iff}
use valyria.Common.Tests.{nat_eqb, nat_eqb_iff}

-- The trait: `eq`, and what a derived implementation promises of it.
pub record PartialEq {ℓ} (T : Type ℓ) : Type ℓ where
  pub eq : T → T → Bool
  pub eq_iff : (self other : T) → (eq self other ≡ true) ↔ (self ≡ other)

infix 50 ◌==◌
abbrev pub ◌==◌ {ℓ} : {T : Type ℓ} ⦃trait : PartialEq T⦄ → T → T → Bool
◌==◌ ⦃trait⦄ self other = trait.eq self other

module _ {ℓ} {A : Type ℓ} ⦃e : PartialEq A⦄ where
  pub ==_iff : (a b : A) → ((a == b) ≡ true) ↔ (a ≡ b)
  ==_iff = e.eq_iff

  pub ==_refl : (a : A) → (a == a) ≡ true
  ==_refl a = (e.eq_iff a a).1 refl

  pub ==_sym : (a b : A) → (a == b) ≡ (b == a)
  ==_sym a b = ground (arith, e.eq_iff a b, e.eq_iff b a)

  abbrev pub option_eqb : Option A → Option A → Bool
  option_eqb none none = true
  option_eqb (some a) (some b) = a == b
  option_eqb _ _ = false

  pub option_eqb_iff : (a b : Option A) → (option_eqb a b ≡ true) ↔ (a ≡ b)
  option_eqb_iff none none = (λ _. refl, λ _. refl)
  option_eqb_iff none (some b) = (λ h. cc, λ h. cc)
  option_eqb_iff (some a) none = (λ h. cc, λ h. cc)
  option_eqb_iff (some a) (some b) =
      (λ h. ground (arith, e.eq_iff a b), λ h. ground (arith, e.eq_iff a b))

instance abbrev pub option_eq {ℓ} : {A : Type ℓ} ⦃e : PartialEq A⦄ → PartialEq (Option A)
option_eq = record { eq = option_eqb; eq_iff = option_eqb_iff }

instance abbrev pub string_eq : PartialEq String
string_eq = record { eq = str_eqb; eq_iff = str_eqb_iff }

instance abbrev pub nat_eq : PartialEq ℕ
nat_eq = record { eq = nat_eqb; eq_iff = nat_eqb_iff }
