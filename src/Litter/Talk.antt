-- ===== src/Litter/Talk.antt =====
-- The calls of crates/pallet-litter/src/lib.rs that leave the task table alone: the stats that a cat
-- reports of itself, messages, reactions and votes.
use akuma_miot.Prelude.{
  ℕ, Bool, not, ◌&&◌, Option, none, some, List, [], ◌∷◌, ◌++◌, if◌then◌else◌, leb, ltb, all,
  is_empty, length, Eq, ok, ◌>>◌, guard,
}
use akuma_miot.Primitives.Text.{Text, len}
use akuma_miot.Primitives.Ids.{MessageId, ArtifactId}
use akuma_miot.Primitives.Effect.{Effect}
use akuma_miot.Tasks.Acts.{is_root}
use akuma_miot.Litter.Maps.{insert, mutate, artifact_eq, artifact_keys}
use akuma_miot.Litter.Storage.{Storage, Comment, Error, comment_keep, default_tally}
use akuma_miot.Litter.Runtime.{Runtime}
use akuma_miot.Litter.Votes.{cast_vote}
use akuma_miot.Litter.Calls.{Receipt, is_patron, ensure_not_patron, authority_of}

-- `Vec::remove(0)`
abbrev pub drop_first {ℓ} : {A : Type ℓ} → List A → List A
drop_first [] = []
drop_first (x ∷ xs) = xs

module _ {ℓ} {A : Type ℓ} where
  -- A comment joins its thread, which keeps the last 64.
  unfoldable pub push_comment : Comment A → List (Comment A) → List (Comment A)
  push_comment c v =
      let v' = v ++ c ∷ [] in if ltb comment_keep (length v') then drop_first v' else v'

module _ {ℓ} {A C : Type ℓ} where
  unfoldable pub comment_on : Storage A C → ℕ → A → ArtifactId → Text → Storage A C
  unfolding mutate artifact_eq push_comment
  comment_on s now who a body = record s {
    comments =
        mutate [] a (push_comment (record { who = who; at = now; epoch = s.epoch; body = body }))
          s.comments;
  }

  unfoldable pub comment_if : Option ArtifactId → Storage A C → ℕ → A → Text → Storage A C
  unfolding comment_on
  comment_if none s now who body = s
  comment_if (some a) s now who body = comment_on s now who a body

module _ {ℓ} {A C : Type ℓ} ⦃e : Eq A⦄ where
  unfoldable pub put_stats : Storage A C → A → ℕ → ℕ → ℕ → ℕ → Storage A C
  unfolding insert
  put_stats s who turns tool_calls tokens ms = record s {
    stats =
        insert who (record { turns = turns; tool_calls = tool_calls; tokens = tokens; ms = ms })
          s.stats;
  }

  unfoldable pub put_messages : Storage A C → A → ℕ → Storage A C
  unfolding insert
  put_messages s who messages = record s { messages_sent = insert who messages s.messages_sent }

  unfoldable pub put_vote : Storage A C → A → ArtifactId → Bool → Storage A C
  unfolding mutate artifact_eq cast_vote
  put_vote s who artifact up = record s {
    votes = mutate default_tally artifact (λ t. cast_vote t who up) s.votes;
  }

module _ {ℓ} {A C : Type ℓ} ⦃e : Eq A⦄ (rt : Runtime A C) (s : Storage A C) where
  unfoldable pub report_stats : A → ℕ → ℕ → ℕ → ℕ → Receipt A C
  unfolding is_patron put_stats
  report_stats who turns tool_calls tokens ms = do
    ensure_not_patron rt s who
    ok (
      put_stats s who turns tool_calls tokens ms,
      Effect.stats_reported who turns tool_calls tokens ms ∷ [],
    )

  unfoldable pub report_stats2 : A → ℕ → ℕ → ℕ → ℕ → ℕ → Receipt A C
  unfolding is_patron put_stats put_messages
  report_stats2 who turns tool_calls messages tokens ms = do
    ensure_not_patron rt s who
    ok (
      put_messages (put_stats s who turns tool_calls tokens ms) who messages,
      Effect.stats_reported2 who turns tool_calls messages tokens ms ∷ [],
    )

  -- A tag has 1 to 32 bytes.
  abbrev pub is_tag : Text → Bool
  is_tag t = not (is_empty t) && leb (len t) 32

  unfoldable pub post :
      ℕ
      → A
      → MessageId
      → Option A
      → Text
      → Option MessageId
      → Option ArtifactId
      → List Text
      → Bool
      → Bool
      → Receipt A C
  unfolding len all authority_of comment_if
  post now who id to body parent artifact_id tags no_ack off_record = do
    guard (leb (len body) rt.constants.max_message) Error.too_long
    guard (leb (length tags) 8) Error.too_long
    guard (all is_tag tags) Error.too_long
    let from_root = is_root (authority_of rt s who)
    ok (
      comment_if artifact_id s now who body,
      Effect.message id who to body parent artifact_id tags from_root no_ack off_record ∷ [],
    )

  unfoldable pub react : A → MessageId → Text → Receipt A C
  unfolding len
  react who target emoji = do
    guard (not (is_empty emoji) && leb (len emoji) 16) Error.too_long
    ok (s, Effect.reacted who target emoji ∷ [])

  unfoldable pub vote : A → ArtifactId → Bool → Receipt A C
  unfolding put_vote
  vote who artifact up = ok (put_vote s who artifact up, Effect.voted who artifact up ∷ [])
