-- ===== src/Kot/Sublists.antt =====
-- Lists in the order of a longer one: the keys of a queue of crates/kot/src/node.rs among all that its
-- order remembers.
use akuma_miot.Prelude.{
  ◌≤◌, ◌≡◌, refl, sym, subst, Bool, false, List, [], ◌∷◌, ◌++◌, arith, length, keep, if-rule,
}

-- `xs` is `ys` with some entries left out.
pub data IsSublist {A : Type 0} : List A → List A → Type 0 where
  done : IsSublist [] []
  skip : {xs ys : List A} (y : A) → IsSublist xs ys → IsSublist xs (y ∷ ys)
  take : {xs ys : List A} (x : A) → IsSublist xs ys → IsSublist (x ∷ xs) (x ∷ ys)

module _ {A : Type 0} where
  pub length-IsSublist : {xs ys : List A} → IsSublist xs ys → length xs ≤ length ys
  length-IsSublist IsSublist.done = omega arith
  length-IsSublist (IsSublist.skip y s) = omega (arith, length-IsSublist s)
  length-IsSublist (IsSublist.take x s) = omega (arith, length-IsSublist s)

  pub snoc-IsSublist :
      {xs ys : List A} (x : A) → IsSublist xs ys → IsSublist (xs ++ x ∷ []) (ys ++ x ∷ [])
  snoc-IsSublist x IsSublist.done = IsSublist.take x IsSublist.done
  snoc-IsSublist x (IsSublist.skip y s) = IsSublist.skip y (snoc-IsSublist x s)
  snoc-IsSublist x (IsSublist.take y s) = IsSublist.take y (snoc-IsSublist x s)

  keep-take :
      (p : A → Bool) (x : A) (xs ys : List A)
      → IsSublist (keep p xs) ys
      → IsSublist (keep p (x ∷ xs)) (x ∷ ys)
  unfolding keep
  keep-take p x xs ys s =
      if-rule (λ (l : List A). IsSublist l (x ∷ ys)) (p x) (x ∷ keep p xs) (keep p xs)
        (λ y. IsSublist.take x s) (λ n. IsSublist.skip x s)

  keep-out : (p : A → Bool) (o : A) (xs : List A) → p o ≡ false → keep p (o ∷ xs) ≡ keep p xs
  unfolding keep
  keep-out p o xs n = rw n refl

  pub keep-IsSublist : {xs ys : List A} (p : A → Bool) → IsSublist xs ys → IsSublist (keep p xs) ys
  unfolding keep
  keep-IsSublist p IsSublist.done = IsSublist.done
  keep-IsSublist p (IsSublist.skip y s) = IsSublist.skip y (keep-IsSublist p s)
  keep-IsSublist p (IsSublist.take {xs = us} {ys = vs} x s) =
      keep-take p x us vs (keep-IsSublist p s)

  -- Without the first of the longer list, when that one is left out everywhere.
  pub drop-IsSublist :
      {xs ys : List A} {o : A} (p : A → Bool)
      → p o ≡ false
      → IsSublist xs (o ∷ ys)
      → IsSublist (keep p xs) ys
  unfolding keep
  drop-IsSublist p n (IsSublist.skip o s) = keep-IsSublist p s
  drop-IsSublist p n (IsSublist.take {xs = us} {ys = vs} o s) =
      subst (λ (l : List A). IsSublist l vs) (sym (keep-out p o us n)) (keep-IsSublist p s)

  pub trans-IsSublist :
      {ys zs : List A} → IsSublist ys zs → (xs : List A) → IsSublist xs ys → IsSublist xs zs
  trans-IsSublist (IsSublist.skip z t) xs s = IsSublist.skip z (trans-IsSublist t xs s)
  trans-IsSublist (IsSublist.take z t) xs (IsSublist.skip y s) =
      IsSublist.skip z (trans-IsSublist t xs s)
  trans-IsSublist (IsSublist.take z t) _ (IsSublist.take {xs = us} y s) =
      IsSublist.take z (trans-IsSublist t us s)
  trans-IsSublist IsSublist.done _ IsSublist.done = IsSublist.done
