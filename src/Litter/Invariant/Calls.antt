-- ===== src/Litter/Invariant/Calls.antt =====
-- Every call of crates/pallet-litter/src/lib.rs keeps the storage sound.
use akuma_miot.Prelude.{
  ℕ, ◌≡◌, refl, true, Option, none, some, List, arith, ltb, length, Eq, ok, err, ◌>>=◌,
}
use akuma_miot.Primitives.Words.{wrap_u32}
use akuma_miot.Primitives.Text.{Text}
use akuma_miot.Primitives.Ids.{ArtifactId}
use akuma_miot.Primitives.Effect.{Effect}
use akuma_miot.Tasks.Table.{TaskTable}
use akuma_miot.Tasks.Acts.{Verdict}
use akuma_miot.Tasks.Invariant.Verdicts.{Leaves}
use akuma_miot.Litter.Maps.{lookup}
use akuma_miot.Litter.Maps.Keys.{any-named}
use akuma_miot.Litter.Storage.{Storage, PatronRequest, max_patron_requests}
use akuma_miot.Litter.Runtime.{Runtime}
use akuma_miot.Litter.Calls.{Receipt, put_table, settle, is_patron, next_epoch}
use akuma_miot.Litter.Talk.{comment_if, put_stats, put_messages}
use akuma_miot.Litter.Patrons.{fold_patron, name_is_free, is_stranger}
use akuma_miot.Litter.Invariant.{IsSound, taken, patron_name, request_name, comment_on-IsSound}
use akuma_miot.Litter.Invariant.Door.{
  drop_request-IsGuarded, drop_patron-IsGuarded, add_request-IsGuarded, admit-IsGuarded,
}

module _ {A C : Type 0} ⦃e : Eq A⦄ where
  abbrev pub IsSoundAfter : Storage A C × List (Effect A) → Type 0
  IsSoundAfter r = IsSound r.0

module _ {A C : Type 0} ⦃e : Eq A⦄ (s : Storage A C) (h : IsSound s) where
  pub put_table-IsSound : (t : TaskTable A) → IsSound (put_table s t)
  put_table-IsSound t = record { tallies = h.tallies; threads = h.threads; door = h.door }

  pub epoch-IsSound : (n : ℕ) → IsSound (record s { epoch = n })
  epoch-IsSound n = record { tallies = h.tallies; threads = h.threads; door = h.door }

  pub settle-IsSound : (v : Verdict A) → Leaves IsSoundAfter (settle s v)
  unfolding settle
  settle-IsSound (ok r) = record { left = put_table-IsSound r.0 }
  settle-IsSound (err x) = record { left = tt }

  pub next_epoch-IsSound :
      (r : Receipt A C) → Leaves IsSoundAfter r → Leaves IsSoundAfter (r >>= λ x. ok (next_epoch x))
  next_epoch-IsSound (ok r) k = record {
    left = record { tallies = k.left.tallies; threads = k.left.threads; door = k.left.door };
  }
  next_epoch-IsSound (err x) k = record { left = tt }

  pub put_stats-IsSound :
      (who : A) (turns tool_calls tokens ms : ℕ)
      → IsSound (put_stats s who turns tool_calls tokens ms)
  unfolding put_stats
  put_stats-IsSound who turns tool_calls tokens ms = record {
    tallies = h.tallies;
    threads = h.threads;
    door = h.door;
  }

  pub put_messages-IsSound : (who : A) (messages : ℕ) → IsSound (put_messages s who messages)
  unfolding put_messages
  put_messages-IsSound who messages = record {
    tallies = h.tallies;
    threads = h.threads;
    door = h.door;
  }

  pub comment_if-IsSound :
      (a : Option ArtifactId) (now : ℕ) (who : A) (body : Text)
      → IsSound (comment_if a s now who body)
  unfolding comment_if
  comment_if-IsSound none now who body = h
  comment_if-IsSound (some a) now who body = comment_on-IsSound s now who a body h

  name_is_free-taken :
      (n : Text) → name_is_free s n ≡ true → taken s.roster s.patrons s.patron_requests n ≡ 0
  unfolding name_is_free taken
  name_is_free-taken n f =
      ground (arith, any-named patron_name n s.patrons, any-named request_name n s.patron_requests)

module _ {A C : Type 0} ⦃e : Eq A⦄ (rt : Runtime A C) (s : Storage A C) (h : IsSound s)
    (now : ℕ) where
  pub requested-IsSound :
      (who : A) (name note : Text) (carrier : A)
      → is_stranger rt s who ≡ true
      → name_is_free s name ≡ true
      → ltb (wrap_u32 (length s.patron_requests)) max_patron_requests ≡ true
      → IsSound (fold_patron rt s (Effect.patron_requested who name note carrier) now)
  unfolding fold_patron is_patron is_stranger
  requested-IsSound who name note carrier a b c = record {
    tallies = h.tallies;
    threads = h.threads;
    door =
        add_request-IsGuarded s.roster s.patrons s.patron_requests h.door who _
          (ground (arith, h.door.pending)) (ground arith) (ground arith)
          (name_is_free-taken s h name b);
  }

  pub rejected-IsSound :
      (who by : A) → IsSound (fold_patron rt s (Effect.patron_rejected who by) now)
  unfolding fold_patron
  rejected-IsSound who by = record {
    tallies = h.tallies;
    threads = h.threads;
    door = drop_request-IsGuarded s.roster s.patrons s.patron_requests h.door who;
  }

  pub revoked-IsSound : (who by : A) → IsSound (fold_patron rt s (Effect.patron_revoked who by) now)
  unfolding fold_patron
  revoked-IsSound who by = record {
    tallies = h.tallies;
    threads = h.threads;
    door = drop_patron-IsGuarded s.roster s.patrons s.patron_requests h.door who;
  }

  pub approved-IsSound :
      (who by : A) (r : PatronRequest A)
      → lookup who s.patron_requests ≡ some r
      → IsSound (fold_patron rt s (Effect.patron_approved who r.name by) now)
  unfolding fold_patron
  approved-IsSound who by r q = record {
    tallies = h.tallies;
    threads = h.threads;
    door =
        admit-IsGuarded s.roster s.patrons s.patron_requests h.door who r _ q refl
          (ground (arith, h.door.strangers who)) (ground (arith, h.door.strangers who));
  }
