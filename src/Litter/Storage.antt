-- ===== src/Litter/Storage.antt =====
-- What crates/pallet-litter/src/lib.rs keeps on chain: the storage items of the pallet, their types and
-- their bounds, its errors and its genesis.
use akuma_miot.Prelude.{ℕ, Bool, false, Option, List, []}
use akuma_miot.Primitives.Text.{Text}
use akuma_miot.Primitives.Ids.{ArtifactId}
use akuma_miot.Primitives.Vocabulary
use akuma_miot.Tasks.Table.{State, default_state}

pub record CatStats : Type 0 where
  pub turns : ℕ
  pub tool_calls : ℕ
  pub tokens : ℕ
  pub ms : ℕ

pub record PatronRequest {ℓ} (A : Type ℓ) : Type ℓ where
  pub name : Text
  pub note : Text
  pub at : ℕ
  pub carrier : A

pub record Patron {ℓ} (A : Type ℓ) : Type ℓ where
  pub name : Text
  pub note : Text
  pub approved_by : A
  pub at : ℕ

pub record Tally {ℓ} (A : Type ℓ) : Type ℓ where
  pub up : List A
  pub down : List A

pub record Comment {ℓ} (A : Type ℓ) : Type ℓ where
  pub who : A
  pub at : ℕ
  pub epoch : ℕ
  pub body : Text

abbrev pub max_patron_requests : ℕ
max_patron_requests = 16

abbrev pub max_patron_name : ℕ
max_patron_name = 32

abbrev pub max_patron_note : ℕ
max_patron_note = 500

abbrev pub comment_keep : ℕ
comment_keep = 64

-- The storage of the pallet; `providers` is what the system pallet keeps, of the type `C`.
pub record Storage {ℓ} (A C : Type ℓ) : Type ℓ where
  pub litter : State A
  pub replaying : Bool
  pub stats : List (A × CatStats)
  pub messages_sent : List (A × ℕ)
  pub votes : List (ArtifactId × Tally A)
  pub epoch : ℕ
  pub comments : List (ArtifactId × List (Comment A))
  pub roster : List (Text × A)
  pub patron_requests : List (A × PatronRequest A)
  pub patrons : List (A × Patron A)
  pub providers : C

-- Why a call is refused: the errors of the table first, then those of the pallet alone.
pub data Error : Type 0 where
  not_authorized no_such_task wrong_status wrong_kind not_yours root_not_assignable empty_plan
        too_many_subtasks already_planned subtasks_outstanding too_long already_submitted
        already_claimed too_many_tasks :
      Error
  bad_signature already_known no_such_patron bad_name too_many_requests : Error

-- `From<TaskError> for Error`
abbrev pub from_task_error : Vocabulary.Error → Error
from_task_error Vocabulary.Error.not_authorized = Error.not_authorized
from_task_error Vocabulary.Error.no_such_task = Error.no_such_task
from_task_error Vocabulary.Error.wrong_status = Error.wrong_status
from_task_error Vocabulary.Error.wrong_kind = Error.wrong_kind
from_task_error Vocabulary.Error.not_yours = Error.not_yours
from_task_error Vocabulary.Error.root_not_assignable = Error.root_not_assignable
from_task_error Vocabulary.Error.empty_plan = Error.empty_plan
from_task_error Vocabulary.Error.too_many_subtasks = Error.too_many_subtasks
from_task_error Vocabulary.Error.already_planned = Error.already_planned
from_task_error Vocabulary.Error.subtasks_outstanding = Error.subtasks_outstanding
from_task_error Vocabulary.Error.too_long = Error.too_long
from_task_error Vocabulary.Error.already_submitted = Error.already_submitted
from_task_error Vocabulary.Error.already_claimed = Error.already_claimed
from_task_error Vocabulary.Error.too_many_tasks = Error.too_many_tasks

module _ {ℓ} {A : Type ℓ} where
  -- `Tally::default`
  abbrev pub default_tally : Tally A
  default_tally = record { up = []; down = [] }

pub record GenesisConfig {ℓ} (A : Type ℓ) : Type ℓ where
  pub root : Option A
  pub leader : Option A
  pub roster : List (Text × A)

-- The storage that genesis leaves, on an empty one.
abbrev pub build {ℓ} : {A C : Type ℓ} → C → GenesisConfig A → Storage A C
build providers g = record {
  litter = record default_state { root = g.root; leader = g.leader };
  replaying = false;
  stats = [];
  messages_sent = [];
  votes = [];
  epoch = 0;
  comments = [];
  roster = g.roster;
  patron_requests = [];
  patrons = [];
  providers = providers;
}
