-- ===== src/Prelude/Keys.antt =====
-- What the program asks of an account: equality that can be tested (`A: Clone + Eq`).
use mathlib.Core.Path.{◌≡◌, ap}
use mathlib.Core.Logic.{◌↔◌}
use mathlib.Core.Option.{Option, none, some}
use mathlib.Core.Bool.{Bool, true}
use Prim.Native.Nat.{ℕ}
use akuma_miot.Prelude.Tests.{◌==◌, ==_iff}
use akuma_miot.Prelude.Results.{is_some_and}

pub record Eq {ℓ} (A : Type ℓ) : Type ℓ where
  pub beq : A → A → Bool
  pub beq_iff : (a b : A) → (beq a b ≡ true) ↔ (a ≡ b)

instance abbrev pub nat_eq : Eq ℕ
nat_eq = record { beq = ◌==◌; beq_iff = ==_iff }

-- `o.as_ref() == Some(a)`
abbrev pub holds {ℓ} : {A : Type ℓ} ⦃e : Eq A⦄ → Option A → A → Bool
holds ⦃e⦄ o a = is_some_and (λ b. e.beq b a) o

pub holds-some {ℓ} : {A : Type ℓ} ⦃e : Eq A⦄ (o : Option A) (a : A) → holds o a ≡ true → o ≡ some a
holds-some none a h = cc
holds-some ⦃e⦄ (some b) a h = ap some ((e.beq_iff b a).0 h)
