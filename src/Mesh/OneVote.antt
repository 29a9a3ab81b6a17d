-- ===== src/Mesh/OneVote.antt =====
-- Votes over the life of one node, restarts included (crates/miot-mesh/src/lib.rs).
use akuma_miot.Prelude.{
  ℕ, ◌≤◌, ◌≡◌, refl, true, false, ◌&&◌, ◌||◌, some, List, arith, ltb, if◌then◌else◌, is_some, holds,
  inl, inr, Bool-cases, if-rule, holds-some, sym, ◌∙◌, subst,
}
use akuma_miot.Mesh.Maps.{text_eq, text_keys, text_eq_iff}
use akuma_miot.Mesh.State.{Name, Route, VoteRequest, VoteReply, Mesh, reset_deadline}
use akuma_miot.Mesh.Clock.{step_down, adopt_term}
use akuma_miot.Mesh.Votes.{
  vote, on_vote_request, on_vote_reply, on_pre_vote, stand, is_free, up_to_date, leader_alive,
}
use akuma_miot.Mesh.History.{Event, run}
use akuma_miot.Mesh.Promises.{IsSound, HasVoted, Follows}
use akuma_miot.Mesh.Ballots.{on_vote_request-Follows, on_vote_reply-Follows, TermsFit, run-Follows}

module _ (req : VoteRequest) (now head : ℕ) where
  vote-HasVoted :
      (m : Mesh)
      → m.hard.term ≡ req.term
      → (vote m req now head).1.granted ≡ true
      → HasVoted req.term req.candidate (vote m req now head).0
  unfolding vote reset_deadline
  vote-HasVoted m e g =
      elim (Bool-cases (is_free m req && up_to_date m req.head_term req.head head)) [
        | inl y ↦ rw y (elim (Bool-cases (holds m.hard.voted_for req.candidate)) [
          | inl h ↦ rw h (inr (e, holds-some m.hard.voted_for req.candidate h))
          | inr h ↦ rw h (inr (e, refl))
        ])
        | inr n ↦ let g' = rw n at g in cc
      ]

module _ (m : Mesh) (req : VoteRequest) (now head : ℕ) where
  -- The node as it votes: in the term of the request.
  abbrev voter : Mesh
  voter = if ltb m.hard.term req.term then adopt_term m req.term now else m

  voter-term : m.hard.term ≤ req.term → voter.hard.term ≡ req.term
  voter-term le =
      if-rule (λ (x : Mesh). x.hard.term ≡ req.term) (ltb m.hard.term req.term) _ m
        (λ h. unfold adopt_term step_down reset_deadline in ground (arith, h))
        (λ h. ground (arith, h, le))

  -- A vote that is granted was cast, in a term that was not behind.
  granted-vote :
      req.pre ≡ false
      → (on_vote_request m req now head).1.granted ≡ true
      → (on_vote_request m req now head ≡ vote voter req now head) × (m.hard.term ≤ req.term)
  unfolding on_vote_request
  granted-vote real =
      if-rule P m.learner _ _ (λ _ g. cc)
        (λ _.
          if-rule P (leader_alive m now || text_eq req.candidate m.name) _ _ (λ _ g. cc)
            (λ _.
              if-rule P req.pre _ _ (λ q g. cc)
                (λ _.
                  if-rule P (ltb req.term m.hard.term) _ _ (λ _ g. cc)
                    (λ n g. (refl, ground (arith, n))))))
    where
      P : Mesh × VoteReply → Type 0
      P r = r.1.granted ≡ true → (r ≡ vote voter req now head) × (m.hard.term ≤ req.term)

  pub granted-HasVoted :
      req.pre ≡ false
      → (on_vote_request m req now head).1.granted ≡ true
      → HasVoted req.term req.candidate (on_vote_request m req now head).0
  granted-HasVoted real g =
      let (e, le) = granted-vote real g in
      subst (λ (r : Mesh × VoteReply). HasVoted req.term req.candidate r.0) (sym e)
        (vote-HasVoted req now head voter (voter-term le)
          (subst (λ (r : Mesh × VoteReply). r.1.granted ≡ true) e g))

  cast-is_free : (x : Mesh) → (vote x req now head).1.granted ≡ true → is_free x req ≡ true
  unfolding vote
  cast-is_free x g = ground (arith, g)

  -- Whoever has this vote in the term of the request is its candidate.
  pub kept-candidate :
      (c : Name)
      → req.pre ≡ false
      → HasVoted req.term c m
      → (on_vote_request m req now head).1.granted ≡ true
      → req.candidate ≡ c
  kept-candidate c real (inl lt) g =
      let (e, le) = granted-vote real g in absurd (omega (arith, lt, le))
  kept-candidate c real (inr (t, v)) g =
      let (e, le) = granted-vote real g in
      let free = cast-is_free voter (subst (λ (r : Mesh × VoteReply). r.1.granted ≡ true) e g) in
      let free_m = subst (λ (x : Mesh). is_free x req ≡ true) same_node free in
      let held = subst (λ o. (if is_some o then holds o req.candidate else true) ≡ true) v free_m in
      sym ((text_eq_iff c req.candidate).0 held)
    where
      same_node : voter ≡ m
      same_node =
          if-rule (λ (x : Mesh). x ≡ m) (ltb m.hard.term req.term) _ m
            (λ h. absurd (ground (arith, h, t))) (λ _. refl)

module _ (m : Mesh) (req : VoteRequest) (now head : ℕ) where
  -- At most one candidate has this node's vote in a term: after it has granted a vote, through whatever
  -- calls and restarts, it grants another in the same term to the same candidate only. A restart keeps
  -- the hard state; no term on the way reaches the largest `u64`, and the node, as a pre-candidate, asks
  -- for the term after its own.
  pub one_vote :
      (es : List Event) (again : VoteRequest) (now' head' : ℕ)
      → IsSound m
      → TermsFit (on_vote_request m req now head).0 es
      → req.pre ≡ false
      → (on_vote_request m req now head).1.granted ≡ true
      → again.pre ≡ false
      → again.term ≡ req.term
      → (on_vote_request (run (on_vote_request m req now head).0 es) again now' head').1.granted
        ≡ true
      → again.candidate ≡ req.candidate
  one_vote es again now' head' s fit real g real' same g' =
      let f = on_vote_request-Follows m req now head s in
      let v =
        (run-Follows (on_vote_request m req now head).0 es f.sound fit).votes req.term req.candidate
          (granted-HasVoted m req now head real g) in
      kept-candidate (run (on_vote_request m req now head).0 es) again now' head' req.candidate
        real'
        (subst (λ t. HasVoted t req.candidate (run (on_vote_request m req now head).0 es))
          (sym same) v)
        g'

module _ (m : Mesh) (req : VoteRequest) (now head : ℕ) where
  denied_self :
      text_eq req.candidate m.name ≡ true → (on_vote_request m req now head).1.granted ≡ false
  unfolding on_vote_request
  denied_self y =
      if-rule P m.learner _ _ (λ _. refl)
        (λ _.
          if-rule P (leader_alive m now || text_eq req.candidate m.name) _ _ (λ _. refl)
            (λ n. absurd (ground (arith, n, y))))
    where
      P : Mesh × VoteReply → Type 0
      P r = r.1.granted ≡ false

  -- A node that has voted for itself grants no other vote in that term.
  denied-candidate :
      (c : Name)
      → m.name ≡ c
      → req.pre ≡ false
      → HasVoted req.term c m
      → (on_vote_request m req now head).1.granted ≡ false
  denied-candidate c n real v = elim (Bool-cases (on_vote_request m req now head).1.granted) [
    | inl g ↦
        denied_self
          ((text_eq_iff req.candidate m.name).1 (kept-candidate m req now head c real v g ∙ sym n))
    | inr g ↦ g
  ]

module _ (m : Mesh) (from : Route) (req : VoteRequest) (now head : ℕ) where
  pre_vote-HasVoted :
      (out : VoteRequest)
      → (on_pre_vote m from req now head).1 ≡ some out
      → HasVoted out.term m.name (on_pre_vote m from req now head).0
  unfolding on_pre_vote stand reset_deadline
  pre_vote-HasVoted out q = ground (arith, q)

  -- A node that stands in a term has its own vote in it.
  pub stands-HasVoted :
      (reply : VoteReply) (out : VoteRequest)
      → (on_vote_reply m from req reply now head).1 ≡ some out
      → HasVoted out.term m.name (on_vote_reply m from req reply now head).0
  unfolding on_vote_reply
  stands-HasVoted reply out q = ground (arith, q, pre_vote-HasVoted out)

  -- A node that stands in a term grants no vote in that term to anybody, through whatever calls and
  -- restarts. A restart keeps the hard state; no term on the way reaches the largest `u64`, and the node,
  -- as a pre-candidate, asks for the term after its own.
  pub stands-one_vote :
      (reply : VoteReply) (out : VoteRequest) (es : List Event) (again : VoteRequest)
      (now' head' : ℕ)
      → IsSound m
      → (on_vote_reply m from req reply now head).1 ≡ some out
      → TermsFit (on_vote_reply m from req reply now head).0 es
      → again.pre ≡ false
      → again.term ≡ out.term
      → (on_vote_request
          (run (on_vote_reply m from req reply now head).0 es)
          again
          now'
          head').1.granted
        ≡ false
  stands-one_vote reply out es again now' head' s q fit real same =
      denied-candidate (run m1 es) again now' head' m.name (g.same_name ∙ f.same_name) real (
        subst (λ t. HasVoted t m.name (run m1 es)) (sym same)
          (g.votes out.term m.name (stands-HasVoted reply out q)))
    where
      m1 : Mesh
      m1 = (on_vote_reply m from req reply now head).0

      f : Follows m m1
      f = on_vote_reply-Follows m from req reply now head s

      g : Follows m1 (run m1 es)
      g = run-Follows m1 es f.sound fit
