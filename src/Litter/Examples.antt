-- ===== src/Litter/Examples.antt =====
-- The theorems on the pallet (crates/pallet-litter/src/lib.rs) at a small litter: account 0 is the root,
-- 1 leads, 2 works, 7 is a patron and 8 asks to be one.
use akuma_miot.Prelude.{
  ℕ, suc, ◌-◌, zero, arith, ◌≡◌, refl, true, false, not, ◌&&◌, none, some, List, [], ◌∷◌,
  if◌then◌else◌, nat_eq, ltb, length, err,
}
use akuma_miot.Primitives.Words.{saturating_add_u32}
use akuma_miot.Primitives.Text.{of_string}
use akuma_miot.Primitives.Ids.{ArtifactId}
use akuma_miot.Tasks.Tick.{tick}
use akuma_miot.Tasks.Gc.{gc}
use akuma_miot.Litter.Storage.{Storage, Tally, GenesisConfig, build, Error}
use akuma_miot.Litter.Runtime.{Runtime, Constants}
use akuma_miot.Litter.Votes.{cast_vote}
use akuma_miot.Litter.Votes.Sides.{IsOneSided, side_of, side_after, cast_vote-side_of, count}
use akuma_miot.Litter.Calls.{is_patron, is_operator}
use akuma_miot.Litter.Blocks.{set_replaying}
use akuma_miot.Litter.Dispatch.{Call, dispatch, step, block, follow}
use akuma_miot.Litter.Replica.Blocks.{follow-block}
use akuma_miot.Litter.Invariant.{IsSound}
use akuma_miot.Litter.Invariant.Runs.{blocks, blocks-IsSound}
use akuma_miot.Litter.Powers.{is_boundary, dispatch-not_authorized, step-epoch}

abbrev pub constants : Constants
constants = record {
  claim_window = 100;
  lease = 150;
  work_nag = 25;
  directive_nag = 20;
  max_nudges = 3;
  max_reoffers = 3;
  max_directive_nudges = 3;
  gc_keep_for = 600;
  max_text = 4096;
  max_result = 16384;
  max_artifact = 65536;
  max_title = 128;
  max_subtasks = 8;
  max_tasks = 512;
  max_message = 2048;
}

-- The system counts all providers in one number, and a signature is good when it is not empty.
abbrev pub runtime : Runtime ℕ ℕ
runtime = record {
  constants = constants;
  verify = λ who message sig. ltb 0 (length sig);
  inc_providers = λ who n. suc n;
  dec_providers = λ who n. n - 1;
  encode_roster = λ roster. [];
  blake_two_256 = λ bytes. bytes;
  encode_request = λ context domain name note. name;
}

abbrev pub genesis : GenesisConfig ℕ
genesis = record {
  root = some 0;
  leader = some 1;
  roster = (of_string "sora", 1) ∷ (of_string "tama", 2) ∷ [];
}

abbrev pub start : Storage ℕ ℕ
start = build 0 genesis

abbrev with_patron : Storage ℕ ℕ
with_patron = record start {
  patrons =
      (7, record { name = of_string "kuro"; note = of_string "hi"; approved_by = 0; at = 3 }) ∷ [];
}

abbrev calls : List (ℕ × Call ℕ)
calls =
    (0, Call.opens (of_string "feed the cats"))
    ∷ (2, Call.votes (ArtifactId.note 4) true)
    ∷ (2, Call.carries 8 (of_string "mimi") (of_string "let me in") (1 ∷ []))
    ∷ (0, Call.approves 8)
    ∷ (8, Call.posts 11 none (of_string "hello") none (some (ArtifactId.note 4)) [] false false)
    ∷ []

abbrev compacting : Call ℕ
compacting = Call.compacts

abbrev two_sided : Tally ℕ
two_sided = record { up = 1 ∷ []; down = 2 ∷ [] }

two_sided-IsOneSided : IsOneSided two_sided
unfolding count
two_sided-IsOneSided (suc (suc (suc a))) = ground arith
two_sided-IsOneSided (suc (suc zero)) = omega arith
two_sided-IsOneSided (suc zero) = omega arith
two_sided-IsOneSided zero = omega arith

cast_vote-side_of_example :
    side_of (cast_vote two_sided 2 true) 2
    ≡ (if nat_eq.beq 2 2 then side_after (side_of two_sided 2) true else side_of two_sided 2)
cast_vote-side_of_example = cast_vote-side_of two_sided 2 two_sided-IsOneSided true 2

follow-block_example :
    follow runtime (set_replaying start true) 5 (block runtime start 5 calls).1
    ≡ set_replaying (block runtime start 5 calls).0 true
unfolding tick gc
follow-block_example =
    follow-block runtime 5 start calls refl (refl, refl) (refl, (refl, (refl, (refl, (refl, tt)))))

blocks-IsSound_example : IsSound (blocks runtime start ((5, calls) ∷ []))
blocks-IsSound_example = blocks-IsSound runtime 0 genesis ((5, calls) ∷ [])

dispatch-not_authorized_example :
    dispatch runtime with_patron 5 7 (Call.opens (of_string "mine")) ≡ err Error.not_authorized
unfolding is_patron
dispatch-not_authorized_example =
    dispatch-not_authorized runtime with_patron 5 7 (Call.opens (of_string "mine")) refl refl refl

step-epoch_example : (step runtime start 5 (0, compacting)).0.epoch ≡ (
    if is_boundary compacting && is_operator runtime start 0 && not (is_patron runtime start 0)
    then saturating_add_u32 start.epoch 1
    else start.epoch)
step-epoch_example = step-epoch runtime start 5 0 compacting
