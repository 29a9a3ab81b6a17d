-- ===== src/Litter/Runtime.antt =====
-- What crates/pallet-litter/src/lib.rs is given: the constants of the runtime (`Config`), and the code
-- outside the repository that it calls.
use akuma_miot.Prelude.{ℕ, Bool, List}
use akuma_miot.Primitives.Text.{Text}
use akuma_miot.Primitives.Config
use akuma_miot.Tasks.Table.{TaskTable, from_state}
use akuma_miot.Litter.Storage.{Storage}

-- Numbers as the runtime gives them: the counts `u8`, the rest `u32`.
pub record Constants : Type 0 where
  pub claim_window : ℕ
  pub lease : ℕ
  pub work_nag : ℕ
  pub directive_nag : ℕ
  pub max_nudges : ℕ
  pub max_reoffers : ℕ
  pub max_directive_nudges : ℕ
  pub gc_keep_for : ℕ
  pub max_text : ℕ
  pub max_result : ℕ
  pub max_artifact : ℕ
  pub max_title : ℕ
  pub max_subtasks : ℕ
  pub max_tasks : ℕ
  pub max_message : ℕ

-- The accounts of the chain are `A`, what the system pallet counts of their providers is `C`.
pub record Runtime {ℓ} (A C : Type ℓ) : Type ℓ where
  pub constants : Constants
  -- `PatronSignature::verify`: an account, the message and the 64 bytes of a signature.
  pub verify : A → List ℕ → List ℕ → Bool
  -- `frame_system::inc_providers` and `dec_providers`.
  pub inc_providers : A → C → C
  pub dec_providers : A → C → C
  -- The SCALE encoding, and Blake2, in the bytes that a requester signs.
  pub encode_roster : List (Text × A) → List ℕ
  pub blake_two_256 : List ℕ → List ℕ
  pub encode_request : List ℕ → List ℕ → Text → Text → List ℕ

module _ {ℓ} {A C : Type ℓ} (rt : Runtime A C) where
  abbrev pub miot_config : Config.Config
  miot_config = record {
    timers = record {
      claim_window = rt.constants.claim_window;
      lease = rt.constants.lease;
      work_nag = rt.constants.work_nag;
      directive_nag = rt.constants.directive_nag;
      max_nudges = rt.constants.max_nudges;
      max_reoffers = rt.constants.max_reoffers;
      max_directive_nudges = rt.constants.max_directive_nudges;
    };
    limits = record {
      max_text = rt.constants.max_text;
      max_result = rt.constants.max_result;
      max_artifact = rt.constants.max_artifact;
      max_title = rt.constants.max_title;
      max_subtasks = rt.constants.max_subtasks;
      max_tasks = rt.constants.max_tasks;
      max_message = rt.constants.max_message;
    };
  }

  abbrev pub table : Storage A C → TaskTable A
  table s = from_state s.litter miot_config
