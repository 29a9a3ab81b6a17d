-- ===== src/Kot/Pins.antt =====
-- The accounts that the listener of a node accepts (`tls_readers` of crates/kot/src/node.rs) and those
-- that its handlers accept.
use akuma_miot.Prelude.{
  Bool, true, not, ◌||◌, ◌≡◌, refl, ap, ◌∙◌, List, [], ◌∷◌, ◌++◌, any, keep, arith, if-rule, Eq,
}
use akuma_miot.Kot.Readers.{
  Config, Access, members_of, contains, add, add_all, trusted_accounts, reader_accounts,
  open_access, is_trusted_signer, trusted_set, is_chain_patron, is_reader, can_write,
  refresh_patrons, refreshed,
}

module _ {A : Type 0} ⦃e : Eq A⦄ where
  beq_comm : (a b : A) → e.beq a b ≡ e.beq b a
  beq_comm a b = grind (arith, e.beq_iff a b, e.beq_iff b a)

  contains-append :
      (xs ys : List A) (a : A) → contains (xs ++ ys) a ≡ contains xs a || contains ys a
  unfolding contains
  contains-append [] ys a = refl
  contains-append (x ∷ xs) ys a = ground (arith, contains-append xs ys a)

  contains-one : (b a : A) → contains (b ∷ []) a ≡ e.beq b a
  unfolding contains
  contains-one b a = ground arith

  add-rule :
      (P : List A → Type 0) (v : List A) (b : A)
      → (contains v b ≡ true → P v)
      → P (v ++ b ∷ [])
      → P (add v b)
  unfolding add
  add-rule P v b h k = if-rule P (contains v b) v (v ++ b ∷ []) h (λ n. k)

  contains-add : (v : List A) (b a : A) → contains (add v b) a ≡ contains v a || e.beq b a
  contains-add v b a =
      add-rule (λ (l : List A). contains l a ≡ contains v a || e.beq b a) v b
        (λ y. grind (arith, y, e.beq_iff b a))
        (contains-append v (b ∷ []) a ∙ ap (λ (x : Bool). contains v a || x) (contains-one b a))

  contains-add_all :
      (v ws : List A) (a : A) → contains (add_all v ws) a ≡ contains v a || contains ws a
  unfolding add_all contains
  contains-add_all v [] a = ground arith
  contains-add_all v (w ∷ ws) a =
      ground (arith, contains-add_all (add v w) ws a, contains-add v w a)

  contains-keep :
      (p : A → Bool) (xs : List A) (a : A) → p a ≡ true → contains (keep p xs) a ≡ contains xs a
  unfolding keep contains
  contains-keep p [] a h = refl
  contains-keep p (x ∷ xs) a h = grind (arith, contains-keep p xs a h, e.beq_iff x a)

  contains-new :
      (old xs : List A) (a : A)
      → contains old a || contains (keep (λ x. not (contains old x)) xs) a
        ≡ contains old a || contains xs a
  contains-new old xs a = ground (arith, contains-keep (λ x. not (contains old x)) xs a)

  trusted-contains :
      (ms : List A) (root leader a : A)
      → contains (trusted_accounts ms root leader) a
        ≡ contains ms a || (e.beq a root || e.beq a leader)
  unfolding trusted_accounts contains
  trusted-contains ms root leader a =
      ground (arith, contains-add_all ms (root ∷ leader ∷ []) a, beq_comm root a, beq_comm leader a)

module _ {N A : Type 0} ⦃e : Eq A⦄ where
  contains-members_of :
      (m : List (N × A)) (a : A) → contains (members_of m) a ≡ any (λ (f : N × A). e.beq f.1 a) m
  unfolding contains any
  contains-members_of [] a = refl
  contains-members_of (x ∷ m) a = ground (arith, contains-members_of m a)

  readers-contains :
      (cfg : Config N A) (a : A) → contains (reader_accounts cfg) a ≡ is_reader (open_access cfg) a
  unfolding reader_accounts is_reader open_access is_trusted_signer is_chain_patron any
  readers-contains cfg a = ground (
    arith,
    contains-add_all (trusted_accounts (members_of cfg.roster) cfg.root cfg.leader)
        (members_of cfg.patrons ++ cfg.identity ∷ []) a,
    trusted-contains (members_of cfg.roster) cfg.root cfg.leader a,
    contains-append (members_of cfg.patrons) (cfg.identity ∷ []) a,
    contains-members_of cfg.patrons a,
    contains-one cfg.identity a,
    beq_comm cfg.identity a,
  )

  -- The account reads without the chain's help.
  abbrev reads_by_config : Access N A → A → Bool
  reads_by_config n a =
      is_trusted_signer n a || (e.beq a n.identity || any (λ (f : N × A). e.beq f.1 a) n.patrons)

  record IsPinned (n : Access N A) : Type 0 where
    static : (a : A) → contains n.static_readers a ≡ reads_by_config n a
    live : (a : A) → contains n.tls_readers a ≡ is_reader n a

  open-IsPinned : (cfg : Config N A) → IsPinned (open_access cfg)
  unfolding open_access is_reader is_chain_patron is_trusted_signer any
  open-IsPinned cfg = record {
    static = λ a. ground (arith, readers-contains cfg a);
    live = readers-contains cfg;
  }

  refresh-IsPinned :
      (n : Access N A) (patrons : List (N × A)) → IsPinned n → IsPinned (refresh_patrons n patrons)
  unfolding refresh_patrons is_reader is_trusted_signer is_chain_patron
  refresh-IsPinned n patrons h = record {
    static = h.static;
    live = λ a. ground (
      arith,
      h.static a,
      contains-append n.static_readers
          (keep (λ x. not (contains n.static_readers x)) (members_of patrons)) a,
      contains-new n.static_readers (members_of patrons) a,
      contains-members_of patrons a,
    );
  }

  refreshed-IsPinned :
      (n : Access N A) (reads : List (List (N × A))) → IsPinned n → IsPinned (refreshed n reads)
  unfolding refreshed
  refreshed-IsPinned n [] h = h
  refreshed-IsPinned n (patrons ∷ reads) h =
      refreshed-IsPinned (refresh_patrons n patrons) reads (refresh-IsPinned n patrons h)

  -- For a node that was opened on any configuration and re-read the patrons of the chain any number of
  -- times, and any account: the listener accepts a handshake from the account exactly if the handlers
  -- let it read; the set that outgoing connections trust has it exactly if it is a trusted signer; and
  -- an account that may write may read.
  pub pins-agree :
      (cfg : Config N A) (reads : List (List (N × A))) (a : A)
      → (contains (refreshed (open_access cfg) reads).tls_readers a
          ≡ is_reader (refreshed (open_access cfg) reads) a)
        × (contains (trusted_set (refreshed (open_access cfg) reads)) a
            ≡ is_trusted_signer (refreshed (open_access cfg) reads) a)
        × (can_write (refreshed (open_access cfg) reads) a ≡ true
            → is_reader (refreshed (open_access cfg) reads) a ≡ true)
  unfolding trusted_set is_trusted_signer can_write is_reader
  pins-agree cfg reads a =
      let n = refreshed (open_access cfg) reads in
      (
        (refreshed-IsPinned (open_access cfg) reads (open-IsPinned cfg)).live a,
        trusted-contains n.members n.genesis_root n.genesis_leader a,
        (λ w. ground arith),
      )
