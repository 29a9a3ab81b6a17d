-- ===== src/Litter/Maps/Keys.antt =====
-- Storage maps of crates/pallet-litter/src/lib.rs, entry by entry: predicates, sizes, and how many
-- entries have a name.
use akuma_miot.Prelude.{
  ℕ, ◌+◌, ◌≤◌, ◌≡◌, refl, true, false, none, some, List, [], ◌∷◌, arith, ltb, if◌then◌else◌, any,
  length, Eq, All,
}
use akuma_miot.Primitives.Text.{Text}
use akuma_miot.Mesh.Maps.{text_eq}
use akuma_miot.Litter.Maps.{
  lookup, insert, remove, get_or, contains_key, NodupKeys, lookup-insert_other, lookup-remove_other,
}

module _ {K V : Type 0} ⦃e : Eq K⦄ where
  pub All-insert :
      (P : K × V → Type 0) (k : K) (v : V) (m : List (K × V))
      → P (k, v)
      → All P m
      → All P (insert k v m)
  unfolding insert
  All-insert P k v [] h hs = (h, tt)
  All-insert P k v ((j, w) ∷ m) h hs = ground (arith, All-insert P k v m h hs.1)

  pub All-lookup :
      (P : V → Type 0) (k : K) (d : V) (m : List (K × V))
      → P d
      → All (λ (x : K × V). P x.1) m
      → P (get_or d k m)
  unfolding lookup
  All-lookup P k d [] h hs = h
  All-lookup P k d ((j, w) ∷ m) h hs = ground (arith, All-lookup P k d m h hs.1)

  pub length-insert : (k : K) (v : V) (m : List (K × V)) → length (insert k v m) ≤ length m + 1
  unfolding insert
  length-insert k v [] = omega arith
  length-insert k v ((j, w) ∷ m) = ground (arith, length-insert k v m)

  pub length-remove : (k : K) (m : List (K × V)) → length (remove k m) ≤ length m
  unfolding remove
  length-remove k [] = omega arith
  length-remove k ((j, w) ∷ m) = ground (arith, length-remove k m)

  pub insert-NodupKeys : (k : K) (v : V) (m : List (K × V)) → NodupKeys m → NodupKeys (insert k v m)
  unfolding insert lookup
  insert-NodupKeys k v [] h = (refl, tt)
  insert-NodupKeys k v ((j, w) ∷ m) h =
      grind (
        arith,
        insert-NodupKeys k v m h.1,
        lookup-insert_other j k v m,
        e.beq_iff j k,
        e.beq_iff k j,
      )

  pub remove-NodupKeys : (k : K) (m : List (K × V)) → NodupKeys m → NodupKeys (remove k m)
  unfolding remove
  remove-NodupKeys k [] h = tt
  remove-NodupKeys k ((j, w) ∷ m) h =
      grind
        (arith, remove-NodupKeys k m h.1, lookup-remove_other j k m, e.beq_iff j k, e.beq_iff k j)

  pub contains-insert :
      (j k : K) (v : V) (m : List (K × V))
      → contains_key j (insert k v m) ≡ (if e.beq k j then true else contains_key j m)
  unfolding insert lookup
  contains-insert j k v [] = ground arith
  contains-insert j k v ((i, w) ∷ m) = grind (arith, e.beq_iff i k, contains-insert j k v m)

  pub contains-remove :
      (j k : K) (m : List (K × V))
      → contains_key j (remove k m) ≡ (if e.beq k j then false else contains_key j m)
  unfolding remove lookup
  contains-remove j k [] = ground arith
  contains-remove j k ((i, w) ∷ m) = grind (arith, e.beq_iff i k, contains-remove j k m)

module _ {K V : Type 0} (f : V → Text) where
  -- How many entries have the name `n`.
  unfoldable pub named : Text → List (K × V) → ℕ
  named n [] = 0
  named n ((k, v) ∷ m) = (if text_eq (f v) n then 1 else 0) + named n m

  pub any-named :
      (n : Text) (m : List (K × V)) → any (λ (x : K × V). text_eq (f x.1) n) m ≡ ltb 0 (named n m)
  unfolding any named
  any-named n [] = refl
  any-named n (x ∷ m) = ground (arith, any-named n m)

module _ {K V : Type 0} ⦃e : Eq K⦄ (f : V → Text) where
  pub named-insert :
      (n : Text) (k : K) (v : V) (m : List (K × V))
      → lookup k m ≡ none
      → named f n (insert k v m) ≡ named f n m + (if text_eq (f v) n then 1 else 0)
  unfolding named insert lookup
  named-insert n k v [] h = omega arith
  named-insert n k v ((j, w) ∷ m) h = ground (arith, named-insert n k v m)

  pub remove_absent : (k : K) (m : List (K × V)) → lookup k m ≡ none → remove k m ≡ m
  unfolding remove lookup
  remove_absent k [] h = refl
  remove_absent k ((j, w) ∷ m) h = ground (arith, remove_absent k m)

  pub named-remove :
      (n : Text) (k : K) (v : V) (m : List (K × V))
      → NodupKeys m
      → lookup k m ≡ some v
      → named f n m ≡ named f n (remove k m) + (if text_eq (f v) n then 1 else 0)
  unfolding named remove lookup
  named-remove n k v [] u h = cc
  named-remove n k v ((j, w) ∷ m) u h =
      grind (arith, e.beq_iff j k, remove_absent k m, named-remove n k v m u.1)

  pub named-remove_le : (n : Text) (k : K) (m : List (K × V)) → named f n (remove k m) ≤ named f n m
  unfolding named remove
  named-remove_le n k [] = omega arith
  named-remove_le n k (x ∷ m) = ground (arith, named-remove_le n k m)
