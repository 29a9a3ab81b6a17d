-- ===== src/Mesh/Maps.antt =====
-- What crates/miot-mesh/src/lib.rs uses of `String`, `BTreeMap` and `BTreeSet`: a map is a list of
-- entries in the order of their keys, and a set a list of its members in order.
use akuma_miot.Prelude.{
  ◌≡◌, ◌↔◌, Bool, true, false, ◌&&◌, Option, List, [], ◌∷◌, arith, ltb, ◌==◌, if◌then◌else◌, any,
  find, keep, map, not, Eq,
}
use akuma_miot.Primitives.Text.{Text}

unfoldable pub text_eq : Text → Text → Bool
text_eq [] [] = true
text_eq (a ∷ s) (b ∷ t) = a == b && text_eq s t
text_eq _ _ = false

pub text_eq_iff : (s t : Text) → (text_eq s t ≡ true) ↔ (s ≡ t)
unfolding text_eq
text_eq_iff [] [] = ground arith
text_eq_iff [] (b ∷ t) = ground arith
text_eq_iff (a ∷ s) [] = ground arith
text_eq_iff (a ∷ s) (b ∷ t) = ground (arith, text_eq_iff s t)

instance abbrev pub text_keys : Eq Text
text_keys = record { beq = text_eq; beq_iff = text_eq_iff }

-- The order of `String`: that of the bytes, which for UTF-8 is that of the characters.
unfoldable pub text_ltb : Text → Text → Bool
text_ltb [] [] = false
text_ltb [] (b ∷ t) = true
text_ltb (a ∷ s) [] = false
text_ltb (a ∷ s) (b ∷ t) =
    let rest = text_ltb s t in if ltb a b then true else if a == b then rest else false

module _ {ℓ} {V : Type ℓ} where
  abbrev pub has_key : Text → Text × V → Bool
  has_key k e = text_eq k e.0

  -- `BTreeMap::insert`: the old value of the key goes.
  unfoldable pub insert : Text → V → List (Text × V) → List (Text × V)
  unfolding text_eq text_ltb
  insert k v [] = (k, v) ∷ []
  insert k v (e ∷ m) =
      let rest = insert k v m in
      if has_key k e then (k, v) ∷ m else if text_ltb k e.0 then (k, v) ∷ e ∷ m else e ∷ rest

  -- `BTreeMap::remove`
  unfoldable pub remove : Text → List (Text × V) → List (Text × V)
  unfolding text_eq keep
  remove k m = keep (λ e. not (has_key k e)) m

  -- `BTreeMap::get`
  unfoldable pub lookup : Text → List (Text × V) → Option (Text × V)
  unfolding text_eq find
  lookup k m = find (has_key k) m

  -- `BTreeMap::values`
  abbrev pub values : List (Text × V) → List V
  values m = map (λ e. e.1) m

-- `BTreeSet::contains`
unfoldable pub has_member : Text → List Text → Bool
unfolding text_eq any
has_member k s = any (text_eq k) s

-- `BTreeSet::insert`
unfoldable pub add : Text → List Text → List Text
unfolding text_eq text_ltb
add k [] = k ∷ []
add k (x ∷ s) =
    let rest = add k s in
    if text_eq k x then x ∷ s else if text_ltb k x then k ∷ x ∷ s else x ∷ rest

-- `BTreeSet::extend`, and `collect` into a set.
unfoldable pub add_all : List Text → List Text → List Text
unfolding add
add_all [] s = s
add_all (k ∷ ks) s = add_all ks (add k s)
