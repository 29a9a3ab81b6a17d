-- ===== src/Mesh/Quorums.antt =====
-- The sets that crates/miot-mesh/src/lib.rs counts votes with, and majorities of one membership.
use akuma_miot.Prelude.{
  ◌+◌, ◌≤◌, ◌<◌, ◌≡◌, refl, subst, true, false, not, List, [], ◌∷◌, arith, any, keep, length, All,
  All-mono, Bool-cases, inl, inr,
}
use akuma_miot.Primitives.Text.{Text}
use akuma_miot.Mesh.Maps.{text_eq, text_eq_iff, text_ltb, has_member, add}

text_eq_comm : (s t : Text) → text_eq s t ≡ text_eq t s
unfolding text_eq
text_eq_comm [] [] = refl
text_eq_comm [] (b ∷ t) = refl
text_eq_comm (a ∷ s) [] = refl
text_eq_comm (a ∷ s) (b ∷ t) = ground (arith, text_eq_comm s t)

ltb-ne : (s t : Text) → text_ltb s t ≡ true → text_eq s t ≡ false
unfolding text_eq text_ltb
ltb-ne [] [] h = cc
ltb-ne [] (b ∷ t) h = refl
ltb-ne (a ∷ s) [] h = refl
ltb-ne (a ∷ s) (b ∷ t) h = ground (arith, h, ltb-ne s t)

ltb_trans : (s t u : Text) → text_ltb s t ≡ true → text_ltb t u ≡ true → text_ltb s u ≡ true
unfolding text_ltb
ltb_trans [] [] u h k = cc
ltb_trans [] (b ∷ t) [] h k = cc
ltb_trans [] (b ∷ t) (c ∷ u) h k = refl
ltb_trans (a ∷ s) [] u h k = cc
ltb_trans (a ∷ s) (b ∷ t) [] h k = cc
ltb_trans (a ∷ s) (b ∷ t) (c ∷ u) h k = ground (arith, h, k, ltb_trans s t u)

ltb_total : (s t : Text) → text_eq s t ≡ false → text_ltb s t ≡ false → text_ltb t s ≡ true
unfolding text_eq text_ltb
ltb_total [] [] h k = cc
ltb_total [] (b ∷ t) h k = cc
ltb_total (a ∷ s) [] h k = refl
ltb_total (a ∷ s) (b ∷ t) h k = ground (arith, h, k, ltb_total s t)

-- A set as it is kept: in order, and so without repetition.
abbrev pub IsOrdered : List Text → Type 0
IsOrdered [] = Unit
IsOrdered (k ∷ s) = All (λ x. text_ltb k x ≡ true) s × IsOrdered s

module _ (P : Text → Type 0) where
  pub All-add : (k : Text) (s : List Text) → P k → All P s → All P (add k s)
  unfolding add
  All-add k [] p h = (p, tt)
  All-add k (x ∷ s) p h = elim (Bool-cases (text_eq k x)) [
    | inl y ↦ rw y h
    | inr n ↦ rw n (elim (Bool-cases (text_ltb k x)) [
      | inl y ↦ rw y (p, h)
      | inr m ↦ rw m (h.0, All-add k s p h.1)
    ])
  ]

pub add-IsOrdered : (k : Text) (s : List Text) → IsOrdered s → IsOrdered (add k s)
unfolding add
add-IsOrdered k [] h = (tt, tt)
add-IsOrdered k (x ∷ s) h = elim (Bool-cases (text_eq k x)) [
  | inl y ↦ rw y h
  | inr n ↦ rw n (elim (Bool-cases (text_ltb k x)) [
    | inl y ↦ rw y (
      (
        y,
        All-mono (λ z. text_ltb x z ≡ true) (λ z. text_ltb k z ≡ true) s
            (λ z l. ltb_trans k x z y l) h.0,
      ),
      h,
    )
    | inr m ↦
        rw m (All-add (λ z. text_ltb x z ≡ true) k s (ltb_total k x n m) h.0, add-IsOrdered k s h.1)
  ])
]

abbrev pub Distinct : List Text → Type 0
Distinct [] = Unit
Distinct (k ∷ s) = All (λ x. text_eq k x ≡ false) s × Distinct s

pub IsOrdered-Distinct : (s : List Text) → IsOrdered s → Distinct s
IsOrdered-Distinct [] h = tt
IsOrdered-Distinct (k ∷ s) h = (
  All-mono (λ x. text_ltb k x ≡ true) (λ x. text_eq k x ≡ false) s (λ x l. ltb-ne k x l) h.0,
  IsOrdered-Distinct s h.1,
)

abbrev pub Within : List Text → List Text → Type 0
Within ms s = All (λ x. has_member x ms ≡ true) s

without : Text → List Text → List Text
without k ms = keep (λ x. not (text_eq k x)) ms

length-without-le : (k : Text) (ms : List Text) → length (without k ms) ≤ length ms
unfolding without keep
length-without-le k [] = omega arith
length-without-le k (m ∷ ms) = ground (arith, length-without-le k ms)

length-without :
    (k : Text) (ms : List Text) → has_member k ms ≡ true → length (without k ms) + 1 ≤ length ms
unfolding without keep has_member any
length-without k [] h = cc
length-without k (m ∷ ms) h = ground (arith, h, length-without k ms, length-without-le k ms)

has_member-without :
    (k x : Text) (ms : List Text)
    → text_eq k x ≡ false
    → has_member x ms ≡ true
    → has_member x (without k ms) ≡ true
unfolding without keep has_member any
has_member-without k x [] n h = cc
has_member-without k x (m ∷ ms) n h = elim (Bool-cases (text_eq x m)) [
  | inl y ↦
      let e = (text_eq_iff x m).0 y in
      let n' = subst (λ t. text_eq k t ≡ false) e n in ground (arith, y, n')
  | inr z ↦ ground (arith, h, z, has_member-without k x ms n)
]

Within-without :
    (k : Text) (ms t : List Text)
    → All (λ x. text_eq k x ≡ false) t
    → Within ms t
    → Within (without k ms) t
Within-without k ms [] a b = tt
Within-without k ms (x ∷ t) a b = (has_member-without k x ms a.0 b.0, Within-without k ms t a.1 b.1)

-- Distinct members of a membership are no more than it has.
length-Within : (s ms : List Text) → Distinct s → Within ms s → length s ≤ length ms
length-Within [] ms d w = omega arith
length-Within (k ∷ s) ms d w = omega (
  arith,
  length-without k ms w.0,
  length-Within s (without k ms) d.1 (Within-without k ms s d.0 w.1),
)

no_member : (k : Text) (t : List Text) → has_member k t ≡ false → All (λ x. text_eq k x ≡ false) t
unfolding has_member any
no_member k [] h = tt
no_member k (x ∷ t) h = (ground (arith, h), no_member k t (ground (arith, h)))

-- Two parts of a membership that are together larger than it have a member in common.
pub common_member :
    (ms s t : List Text)
    → Distinct s
    → Distinct t
    → Within ms s
    → Within ms t
    → length ms < length s + length t
    → (x : Text) × (has_member x s ≡ true) × (has_member x t ≡ true)
unfolding has_member any
common_member ms [] t ds dt ws wt lt = absurd (omega (arith, lt, length-Within t ms dt wt))
common_member ms (k ∷ s) t ds dt ws wt lt = elim (Bool-cases (has_member k t)) [
  | inl y ↦ (k, ground (arith, (text_eq_iff k k).1 refl), y)
  | inr n ↦
      let (x, a, b) =
        common_member (without k ms) s t ds.1 dt (Within-without k ms s ds.0 ws.1)
          (Within-without k ms t (no_member k t n) wt)
          (omega (arith, lt, length-without k ms ws.0)) in
      (x, ground (arith, a), b)
]
