-- ===== src/Prelude/Equality.antt =====
-- Boolean equality as an instance argument, for numbers, texts and the enums of the program.
use Prim.Native.Nat.{ℕ}
use Prim.Native.String.{String}
use mathlib.Core.Path.{◌≡◌, refl}
use mathlib.Core.Logic.{◌↔◌, ◌≢◌, inl, inr}
use mathlib.Core.Bool.{Bool, true, false}
use native.Mathlib.Omega.{arith}
use text.Mathlib.Text.{◌==◌ as str_eq}
use text.Mathlib.TextEquality.{eq_iff}
use g_io_t_edge_gateway.Prelude.Tests.{nat_beq, nat_beq_iff, Bool-cases}

infix 50 ◌==◌
-- A type with a Boolean test that decides its equality.
pub record Eq {κ} (Key : Type κ) : Type κ where
  pub beq : Key → Key → Bool
  pub beq_iff : (x y : Key) → (beq x y ≡ true) ↔ (x ≡ y)

instance abbrev pub string_eq : Eq String
string_eq = record { beq = str_eq; beq_iff = eq_iff }

instance abbrev pub nat_eq : Eq ℕ
nat_eq = record { beq = nat_beq; beq_iff = nat_beq_iff }

abbrev pub ◌==◌ {κ} : {Key : Type κ} ⦃dec : Eq Key⦄ → Key → Key → Bool
◌==◌ ⦃dec⦄ x y = dec.beq x y

module _ {ℓ} {A : Type ℓ} ⦃e : Eq A⦄ where
  pub ==_refl : (a : A) → (a == a) ≡ true
  ==_refl a = (e.beq_iff a a).1 refl

  pub ==_eq : (a b : A) → (a == b) ≡ true → a ≡ b
  ==_eq a b = (e.beq_iff a b).0

  pub ==_ne : (a b : A) → a ≢ b → (a == b) ≡ false
  ==_ne a b h = elim (Bool-cases (a == b)) [
    | inl same ↦ absurd (h (==_eq a b same))
    | inr differ ↦ differ
  ]

  pub ==_false : (a b : A) → (a == b) ≡ false → a ≢ b
  ==_false a b h e' = ground (arith, e.beq_iff a b)

  pub ==_comm : (a b : A) → (a == b) ≡ (b == a)
  ==_comm a b = ground (arith, e.beq_iff a b, e.beq_iff b a)
