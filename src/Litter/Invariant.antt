-- ===== src/Litter/Invariant.antt =====
-- What holds of the storage of crates/pallet-litter/src/lib.rs between two calls.
pub mod Door
pub mod Calls
pub mod Runs
use akuma_miot.Prelude.{
  ℕ, ◌+◌, ◌≤◌, ◌≡◌, refl, Bool, true, false, not, Option, none, some, List, [], ◌∷◌, ◌++◌, arith,
  ltb, if◌then◌else◌, any, length, length-append, Eq, All, Result, ok, err, ◌>>=◌, ◌>>◌, guard,
  ok_or, holds,
}
use akuma_miot.Primitives.Text.{Text}
use akuma_miot.Primitives.Ids.{ArtifactId}
use akuma_miot.Primitives.Effect.{Effect}
use akuma_miot.Tasks.Table.{TaskTable}
use akuma_miot.Tasks.Acts.{Verdict}
use akuma_miot.Tasks.Invariant.Verdicts.{
  Leaves, Leaves-ok, Leaves-check, Leaves-guard, Leaves-ok_or,
}
use akuma_miot.Mesh.Maps.{text_eq}
use akuma_miot.Litter.Maps.{
  lookup, insert, remove, mutate, contains_key, artifact_keys, NodupKeys, lookup-insert_same,
  lookup-insert_other, lookup-remove_same, lookup-remove_other,
}
use akuma_miot.Litter.Maps.Keys.{
  All-insert, All-lookup, length-insert, length-remove, insert-NodupKeys, remove-NodupKeys, named,
  any-named, named-insert, named-remove, named-remove_le,
}
use akuma_miot.Litter.Storage.{
  Storage, Tally, Comment, Patron, PatronRequest, Error, comment_keep, max_patron_requests,
  default_tally,
}
use akuma_miot.Litter.Runtime.{Runtime}
use akuma_miot.Litter.Votes.Sides.{IsOneSided, cast_vote-IsOneSided, default-IsOneSided}
use akuma_miot.Litter.Calls.{put_table, settle, is_patron, next_epoch}
use akuma_miot.Litter.Talk.{push_comment, comment_on, comment_if, put_vote, put_stats, put_messages}
use akuma_miot.Litter.Patrons.{
  fold_patron, name_is_free, carry_patron_request, approve_patron, is_member,
}

abbrev pub patron_name : {A : Type 0} → Patron A → Text
patron_name p = p.name

abbrev pub request_name : {A : Type 0} → PatronRequest A → Text
request_name r = r.name

module _ {A : Type 0} where
  -- How often a name is taken: by the roster, by a patron, by a request.
  unfoldable pub taken :
      List (Text × A) → List (A × Patron A) → List (A × PatronRequest A) → Text → ℕ
  unfolding named any
  taken roster patrons requests n =
      (if any (λ (r : Text × A). text_eq r.0 n) roster then 1 else 0)
      + named patron_name n patrons
      + named request_name n requests

  push_comment-bounded :
      (c : Comment A) (v : List (Comment A))
      → length v ≤ comment_keep
      → length (push_comment c v) ≤ comment_keep
  unfolding push_comment
  push_comment-bounded c [] h = ground arith
  push_comment-bounded c (x ∷ v) h = ground (arith, length-append v (c ∷ []))

module _ {A : Type 0} ⦃e : Eq A⦄ where
  -- At most 16 requests wait, an account waits or is a patron but not both, and no patron and no request
  -- has a name that another one or the roster has.
  pub record IsGuarded (roster : List (Text × A)) (patrons : List (A × Patron A))
      (requests : List (A × PatronRequest A)) : Type 0 where
    pub pending : length requests ≤ max_patron_requests
    pub patron_keys : NodupKeys patrons
    pub request_keys : NodupKeys requests
    pub strangers : (a : A) → contains_key a patrons ≡ true → contains_key a requests ≡ false
    pub names : (n : Text) → taken roster patrons requests n ≤ 1

module _ {A C : Type 0} ⦃e : Eq A⦄ where
  -- Tallies have each voter once, threads are within their bound, and the door is guarded.
  pub record IsSound (s : Storage A C) : Type 0 where
    pub tallies : All (λ (x : ArtifactId × Tally A). IsOneSided x.1) s.votes
    pub threads : All (λ (x : ArtifactId × List (Comment A)). length x.1 ≤ comment_keep) s.comments
    pub door : IsGuarded s.roster s.patrons s.patron_requests

  pub comment_on-IsSound :
      (s : Storage A C) (now : ℕ) (who : A) (a : ArtifactId) (body : Text)
      → IsSound s
      → IsSound (comment_on s now who a body)
  unfolding comment_on mutate
  comment_on-IsSound s now who a body h = record {
    tallies = h.tallies;
    threads =
        All-insert _ a _ s.comments
          (push_comment-bounded _ _
            (All-lookup (λ v. length v ≤ comment_keep) a [] s.comments (omega arith) h.threads))
          h.threads;
    door = h.door;
  }

  pub put_vote-IsSound :
      (s : Storage A C) (who : A) (a : ArtifactId) (up : Bool)
      → IsSound s
      → IsSound (put_vote s who a up)
  unfolding put_vote mutate
  put_vote-IsSound s who a up h = record {
    tallies =
        All-insert _ a _ s.votes
          (cast_vote-IsOneSided _ who
            (All-lookup IsOneSided a default_tally s.votes default-IsOneSided h.tallies) up)
          h.tallies;
    threads = h.threads;
    door = h.door;
  }
