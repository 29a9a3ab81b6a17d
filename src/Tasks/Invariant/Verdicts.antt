-- ===== src/Tasks/Invariant/Verdicts.antt =====
-- What holds of the result of a verb of crates/miot-tasks/src/lib.rs that is not refused, one rule for
-- each kind of check before it.
use akuma_miot.Prelude.{
  ◌≡◌, refl, Bool, true, false, Option, none, some, Result, ok, err, ◌>>=◌, ◌>>◌, guard, ok_or,
}

module _ {E X : Type 0} where
  abbrev Holds : (X → Type 0) → Result E X → Type 0
  Holds P (ok x) = P x
  Holds P (err e) = Unit

  -- A verb that is not refused gives a result with `P`.
  pub record Leaves (P : X → Type 0) (v : Result E X) : Type 0 where
    pub left : Holds P v

module _ {E X : Type 0} {P : X → Type 0} where
  pub Leaves-ok : (x : X) → P x → Leaves {E = E} P (ok x)
  Leaves-ok x h = record { left = h }

  pub Leaves-check :
      (m : Result E (Unit {0})) (k : Result E X) → (m ≡ ok tt → Leaves P k) → Leaves P (m >> k)
  Leaves-check (ok tt) k h = h refl
  Leaves-check (err e) k h = record { left = tt }

  pub Leaves-guard :
      (b : Bool) (e : E) (k : Result E X) → (b ≡ true → Leaves P k) → Leaves P (guard b e >> k)
  Leaves-guard true e k h = h refl
  Leaves-guard false e k h = record { left = tt }

  pub Leaves-ok_or {ℓ} :
      {T : Type ℓ} (o : Option T) (e : E) (k : T → Result E X)
      → ((t : T) → o ≡ some t → Leaves P (k t))
      → Leaves P (ok_or o e >>= k)
  Leaves-ok_or (some t) e k h = h t refl
  Leaves-ok_or none e k h = record { left = tt }
