-- ===== src/Prelude/Equality.antt =====
-- `==` on keys: an interface, and its instances for numbers, texts and pairs.
use Prim.Native.Nat.{ℕ}
use Prim.Native.String.{String}
use text.Mathlib.Text.{◌==◌ as text_eq}
use text.Mathlib.TextEquality.{eq_iff}
use mathlib.Core.Path.{◌≡◌, refl}
use mathlib.Core.Logic.{◌↔◌, ◌≢◌}
use mathlib.Core.Bool.{Bool, true, false, ◌&&◌}
use native.Mathlib.Omega.{arith}
use omnimemory.Prelude.Conditions.{◌==◌ as nat_eq}

-- A key type with the test that a dict makes of its keys, which is true of equal keys only.
pub record Eq {κ} (K : Type κ) : Type κ where
  pub equal : (key other : K) → Bool
  pub equal_iff : (key other : K) → (equal key other ≡ true) ↔ (key ≡ other)

pub nat_eq_iff : (a b : ℕ) → (nat_eq a b ≡ true) ↔ (a ≡ b)
nat_eq_iff a b = ground arith

instance abbrev pub eq_ℕ : Eq ℕ
eq_ℕ = record { equal = nat_eq; equal_iff = nat_eq_iff }

instance abbrev pub eq_String : Eq String
eq_String = record { equal = text_eq; equal_iff = eq_iff }

pub pair_eq_iff {ℓ κ} :
    {A : Type ℓ} {B : Type κ} (d : Eq A) (e : Eq B) (p q : A × B)
    → ((d.equal p.0 q.0 && e.equal p.1 q.1) ≡ true) ↔ (p ≡ q)
pair_eq_iff d e p q = ground (arith, d.equal_iff p.0 q.0, e.equal_iff p.1 q.1)

instance abbrev pub eq_pair {ℓ κ} : {A : Type ℓ} {B : Type κ} ⦃d : Eq A⦄ ⦃e : Eq B⦄ → Eq (A × B)
eq_pair ⦃d⦄ ⦃e⦄ = record {
  equal = λ p q. d.equal p.0 q.0 && e.equal p.1 q.1;
  equal_iff = pair_eq_iff d e;
}

module _ {ℓ} {A : Type ℓ} ⦃e : Eq A⦄ where
  pub equal_refl : (a : A) → e.equal a a ≡ true
  equal_refl a = (e.equal_iff a a).1 refl

  pub equal_of_ne : (a b : A) → a ≢ b → e.equal a b ≡ false
  equal_of_ne a b h = ground (arith, e.equal_iff a b)
