-- ===== src/Litter/Patrons.antt =====
-- Patrons of crates/pallet-litter/src/lib.rs: accounts outside the roster, which a member's node asks
-- for and the root or another patron lets in.
use akuma_miot.Prelude.{
  ℕ, Bool, not, ◌&&◌, ◌||◌, Option, none, some, List, [], ◌∷◌, if◌then◌else◌, leb, ltb, ◌==◌, any,
  all, is_empty, length, Eq, ok, ◌>>=◌, ◌>>◌, guard, ok_or,
}
use akuma_miot.Primitives.Words.{wrap_u32}
use akuma_miot.Primitives.Text.{Text, len}
use akuma_miot.Primitives.Effect.{Effect}
use akuma_miot.Mesh.Maps.{text_eq}
use akuma_miot.Litter.Maps.{lookup, contains_key, insert, remove}
use akuma_miot.Litter.Storage.{
  Storage, PatronRequest, Patron, Error, max_patron_name, max_patron_note, max_patron_requests,
}
use akuma_miot.Litter.Runtime.{Runtime}
use akuma_miot.Litter.Calls.{Receipt, is_operator, is_patron, ensure_not_patron}

-- `[a-z0-9_-]`
abbrev pub is_name_byte : ℕ → Bool
is_name_byte b = (leb 97 b && leb b 122) || (leb 48 b && leb b 57) || b == 95 || b == 45

unfoldable pub is_shaped : Text → Bool
unfolding len all
is_shaped name = not (is_empty name) && leb (len name) max_patron_name && all is_name_byte name

module _ {ℓ} {A C : Type ℓ} where
  unfoldable pub name_is_free : Storage A C → Text → Bool
  unfolding is_shaped any text_eq
  name_is_free s name =
      is_shaped name
      && not (any (λ (r : Text × A). text_eq r.0 name) s.roster)
      && not (any (λ (p : A × Patron A). text_eq p.1.name name) s.patrons)
      && not (any (λ (r : A × PatronRequest A). text_eq r.1.name name) s.patron_requests)

-- The note of a request, if there is one.
abbrev pub note_of {ℓ} : {A : Type ℓ} → Option (PatronRequest A) → Text
note_of none = []
note_of (some r) = r.note

module _ {ℓ} {A C : Type ℓ} ⦃e : Eq A⦄ (rt : Runtime A C) where
  -- A provider is given when the account becomes a patron, and taken when it no longer is one.
  abbrev pub gain_provider : A → Bool → C → C
  gain_provider who known n = if known then n else rt.inc_providers who n

  abbrev pub lose_provider : A → Bool → C → C
  lose_provider who known n = if known then rt.dec_providers who n else n

  unfoldable pub fold_patron : Storage A C → Effect A → ℕ → Storage A C
  unfolding insert remove lookup
  fold_patron s (Effect.patron_requested who name note carrier) now = record s {
    patron_requests =
        insert who (record { name = name; note = note; at = now; carrier = carrier })
          s.patron_requests;
  }
  fold_patron s (Effect.patron_approved who name by) now = record s {
    patron_requests = remove who s.patron_requests;
    providers = gain_provider who (contains_key who s.patrons) s.providers;
    patrons =
        insert who
          (record {
            name = name;
            note = note_of (lookup who s.patron_requests);
            approved_by = by;
            at = now;
          })
          s.patrons;
  }
  fold_patron s (Effect.patron_rejected who by) now = record s {
    patron_requests = remove who s.patron_requests;
  }
  fold_patron s (Effect.patron_revoked who by) now = record s {
    patrons = remove who s.patrons;
    providers = lose_provider who (contains_key who s.patrons) s.providers;
  }
  fold_patron s _ now = s

module _ {ℓ} {A C : Type ℓ} ⦃e : Eq A⦄ (rt : Runtime A C) (s : Storage A C) where
  unfoldable pub is_member : A → Bool
  unfolding any
  is_member who = is_operator rt s who || any (λ (r : Text × A). e.beq r.1 who) s.roster

  -- `request_domain`, `request_message`; "miot/patron-request/v1" comes first.
  abbrev pub request_context : List ℕ
  request_context =
      109 ∷ 105 ∷ 111 ∷ 116 ∷ 47 ∷ 112 ∷ 97 ∷ 116 ∷ 114 ∷ 111 ∷ 110 ∷ 45 ∷ 114 ∷ 101 ∷ 113 ∷ 117
      ∷ 101 ∷ 115 ∷ 116 ∷ 47 ∷ 118 ∷ 49 ∷ []

  abbrev pub request_domain : List ℕ
  request_domain = rt.blake_two_256 (rt.encode_roster s.roster)

  abbrev pub request_message : Text → Text → List ℕ
  request_message name note = rt.encode_request request_context request_domain name note

  -- How the patron calls end: the effect is folded, then deposited.
  unfoldable pub settle_patron : ℕ → Effect A → Storage A C × List (Effect A)
  unfolding fold_patron
  settle_patron now effect = (fold_patron rt s effect now, effect ∷ [])

  -- Root or any patron.
  unfoldable pub may_answer : A → Bool
  unfolding is_patron
  may_answer by = is_operator rt s by || is_patron rt s by

  -- The requester is not in the litter in any way yet.
  unfoldable pub is_stranger : A → Bool
  unfolding is_member is_patron lookup
  is_stranger who =
      not (is_member who) && not (is_patron rt s who) && not (contains_key who s.patron_requests)

  unfoldable pub carry_patron_request : ℕ → A → A → Text → Text → List ℕ → Receipt A C
  unfolding is_member is_patron is_stranger len name_is_free settle_patron
  carry_patron_request now carrier who name note sig = do
    ensure_not_patron rt s carrier
    guard (is_member carrier) Error.not_authorized
    guard (is_stranger who) Error.already_known
    guard (not (is_empty note) && leb (len note) max_patron_note) Error.too_long
    guard (name_is_free s name) Error.bad_name
    guard (ltb (wrap_u32 (length s.patron_requests)) max_patron_requests) Error.too_many_requests
    guard (rt.verify who (request_message name note) sig) Error.bad_signature
    ok (settle_patron now (Effect.patron_requested who name note carrier))

  unfoldable pub approve_patron : ℕ → A → A → Receipt A C
  unfolding may_answer lookup settle_patron
  approve_patron now by who = do
    guard (may_answer by) Error.not_authorized
    req ← ok_or (lookup who s.patron_requests) Error.no_such_patron
    ok (settle_patron now (Effect.patron_approved who req.name by))

  unfoldable pub reject_patron_request : ℕ → A → A → Receipt A C
  unfolding may_answer lookup settle_patron
  reject_patron_request now by who = do
    guard (may_answer by) Error.not_authorized
    guard (contains_key who s.patron_requests) Error.no_such_patron
    ok (settle_patron now (Effect.patron_rejected who by))

  -- Root, or who approved it, while still a patron.
  unfoldable pub may_revoke : A → Patron A → Bool
  unfolding is_patron
  may_revoke by p = is_operator rt s by || (e.beq p.approved_by by && is_patron rt s by)

  unfoldable pub revoke_patron : ℕ → A → A → Receipt A C
  unfolding may_revoke lookup settle_patron
  revoke_patron now by who = do
    p ← ok_or (lookup who s.patrons) Error.no_such_patron
    guard (may_revoke by p) Error.not_authorized
    ok (settle_patron now (Effect.patron_revoked who by))
