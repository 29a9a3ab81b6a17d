-- ===== src/Primitives/TaskId.antt =====
-- `TaskId` of crates/miot-primitives/src/lib.rs: a parent task, or one sub-task of one.
use akuma_miot.Prelude.{ℕ, ◌≡◌, ◌↔◌, Bool, true, ◌&&◌, arith, ◌==◌, Eq}

pub record TaskId : Type 0 where
  pub parent : ℕ
  pub sub : ℕ

abbrev pub parent : ℕ → TaskId
parent n = record { parent = n; sub = 0 }

abbrev pub sub : ℕ → ℕ → TaskId
sub p s = record { parent = p; sub = s }

-- `sub == 0` is the parent's own address.
abbrev pub is_parent : TaskId → Bool
is_parent id = id.sub == 0

abbrev pub parent_id : TaskId → TaskId
parent_id id = record { parent = id.parent; sub = 0 }

-- The derived `PartialEq`.
unfoldable pub same : TaskId → TaskId → Bool
same a b = a.parent == b.parent && a.sub == b.sub

pub same_iff : (a b : TaskId) → (same a b ≡ true) ↔ (a ≡ b)
unfolding same
same_iff a b = (λ h. ground arith, λ h. ground arith)

instance abbrev pub task_id_eq : Eq TaskId
task_id_eq = record { beq = same; beq_iff = same_iff }
