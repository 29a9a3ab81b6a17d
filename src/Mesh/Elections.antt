-- ===== src/Mesh/Elections.antt =====
-- The votes that a member of a mesh gives in one step (crates/miot-mesh/src/lib.rs).
use akuma_miot.Prelude.{
  ℕ, ◌+◌, ◌≡◌, refl, sym, subst, ◌∙◌, Bool, true, false, not, ◌&&◌, Option, none, some, List, [],
  ◌∷◌, ◌++◌, arith, ◌⊎◌, inl, inr,
}
use akuma_miot.Mesh.State.{Name, VoteRequest, VoteReply, Mesh}
use akuma_miot.Mesh.Votes.{on_vote_request, on_vote_reply}
use akuma_miot.Mesh.History.{Event, step}
use akuma_miot.Mesh.Promises.{HasVoted}
use akuma_miot.Mesh.OneVote.{granted-HasVoted, kept-candidate, stands-HasVoted}
use akuma_miot.Mesh.Cluster.{Ballot, Cast, one_if, own_vote, given}
use akuma_miot.Mesh.Members.{NodeOk}
use akuma_miot.Mesh.Safety.{stands-term}

one_if-Cast :
    (v : Name) (t : ℕ) (x : Name) (b : Bool) (a : Ballot)
    → Cast v t x (one_if b a)
    → (b ≡ true) × (a.voter ≡ v) × (a.term ≡ t) × (a.candidate ≡ x)
one_if-Cast v t x true a (inl h) = (refl, h.0, h.1, h.2)
one_if-Cast v t x true a (inr h) = absurd h
one_if-Cast v t x false a h = absurd h

own_vote-Cast :
    (v : Name) (t : ℕ) (x n : Name) (o : Option VoteRequest)
    → Cast v t x (own_vote n o)
    → (out : VoteRequest) × (o ≡ some out) × (n ≡ v) × (out.term ≡ t) × (n ≡ x)
own_vote-Cast v t x n (some out) (inl h) = (out, refl, h.0, h.1, h.2)
own_vote-Cast v t x n (some out) (inr h) = absurd h
own_vote-Cast v t x n none h = absurd h

pub Cast-split :
    (v : Name) (t : ℕ) (x : Name) (new bs : List Ballot)
    → Cast v t x (new ++ bs)
    → Cast v t x new ⊎ Cast v t x bs
Cast-split v t x [] bs h = inr h
Cast-split v t x (b ∷ new) bs (inl h) = inl (inl h)
Cast-split v t x (b ∷ new) bs (inr h) = elim (Cast-split v t x new bs h) [
  | inl k ↦ inl (inr k)
  | inr k ↦ inr k
]

-- What is so of a vote that node `n` gives in a step: it is its own, it holds to it, and it had given no
-- other in that term.
pub record GivenBy (n : Name) (m m' : Mesh) (v : Name) (t : ℕ) (x : Name) : Type 0 where
  pub own : n ≡ v
  pub holds_to : HasVoted t x m'
  pub only : (y : Name) → HasVoted t y m → x ≡ y

module _ (members : List Name) (n : Name) (bs : List Ballot) (m : Mesh)
    (k : NodeOk members n bs m) where
  asked-GivenBy :
      (req : VoteRequest) (now head : ℕ) (v : Name) (t : ℕ) (x : Name)
      → Cast v t x (given n m (Event.asked req now head))
      → GivenBy n m (on_vote_request m req now head).0 v t x
  unfolding given
  asked-GivenBy req now head v t x h =
      let (b, vo, te, ca) =
        one_if-Cast v t x ((on_vote_request m req now head).1.granted && not req.pre)
          (record { voter = n; term = req.term; candidate = req.candidate }) h in
      let g = both b in
      record {
        own = vo;
        holds_to =
            subst (λ u. HasVoted u x (on_vote_request m req now head).0) te
              (subst (λ c. HasVoted req.term c (on_vote_request m req now head).0) ca
                (granted-HasVoted m req now head g.1 g.0));
        only = λ y p.
            sym ca
            ∙ kept-candidate m req now head y g.1 (subst (λ u. HasVoted u y m) (sym te) p) g.0;
      }
    where
      both :
          ((on_vote_request m req now head).1.granted && not req.pre) ≡ true
          → ((on_vote_request m req now head).1.granted ≡ true) × (req.pre ≡ false)
      both b = ground (arith, b)

  answered-GivenBy :
      (from : Name) (req : VoteRequest) (reply : VoteReply) (now head : ℕ) (v : Name) (t : ℕ)
      (x : Name)
      → Cast v t x (given n m (Event.answered from req reply now head))
      → GivenBy n m (on_vote_reply m from req reply now head).0 v t x
  unfolding given
  answered-GivenBy from req reply now head v t x h =
      let (out, q, vo, te, ca) =
        own_vote-Cast v t x n (on_vote_reply m from req reply now head).1 h in
      let next = stands-term n m k.name from req reply now head out k.sound q in
      record {
        own = vo;
        holds_to =
            subst (λ u. HasVoted u x (on_vote_reply m from req reply now head).0) te
              (subst (λ c. HasVoted out.term c (on_vote_reply m from req reply now head).0)
                (k.name ∙ ca) (stands-HasVoted m from req now head reply out q));
        only = λ y p. absurd (late y next te p);
      }
    where
      late : {u : ℕ} (y : Name) → u ≡ m.hard.term + 1 → u ≡ t → HasVoted t y m → ⊥
      late y a b (inl lt) = omega (arith, a, b, lt)
      late y a b (inr e) = omega (arith, a, b, e.0)

  pub given-GivenBy :
      (e : Event) (v : Name) (t : ℕ) (x : Name)
      → Cast v t x (given n m e)
      → GivenBy n m (step m e) v t x
  unfolding step given
  given-GivenBy (Event.asked req now head) v t x h = asked-GivenBy req now head v t x h
  given-GivenBy (Event.answered from req reply now head) v t x h =
      answered-GivenBy from req reply now head v t x h
  given-GivenBy (Event.ticks now head) v t x h = absurd h
  given-GivenBy (Event.polled from st now) v t x h = absurd h
  given-GivenBy (Event.called st now) v t x h = absurd h
  given-GivenBy Event.appends v t x h = absurd h
  given-GivenBy (Event.pushes now head) v t x h = absurd h
  given-GivenBy Event.persists v t x h = absurd h
  given-GivenBy (Event.restarts now seed) v t x h = absurd h

  -- One step gives one vote at most.
  pub given-one :
      (e : Event) (v : Name) (t : ℕ) (x y : Name)
      → Cast v t x (given n m e)
      → Cast v t y (given n m e)
      → x ≡ y
  unfolding given
  given-one (Event.asked req now head) v t x y h h' =
      sym
        (one_if-Cast v t x ((on_vote_request m req now head).1.granted && not req.pre)
          (record { voter = n; term = req.term; candidate = req.candidate }) h).3
      ∙ (one_if-Cast v t y ((on_vote_request m req now head).1.granted && not req.pre)
          (record { voter = n; term = req.term; candidate = req.candidate }) h').3
  given-one (Event.answered from req reply now head) v t x y h h' =
      sym (own_vote-Cast v t x n (on_vote_reply m from req reply now head).1 h).4
      ∙ (own_vote-Cast v t y n (on_vote_reply m from req reply now head).1 h').4
  given-one (Event.ticks now head) v t x y h h' = absurd h
  given-one (Event.polled from st now) v t x y h h' = absurd h
  given-one (Event.called st now) v t x y h h' = absurd h
  given-one Event.appends v t x y h h' = absurd h
  given-one (Event.pushes now head) v t x y h h' = absurd h
  given-one Event.persists v t x y h h' = absurd h
  given-one (Event.restarts now seed) v t x y h h' = absurd h
