-- ===== src/Kot/Readers.antt =====
-- Who may read from a node, who may write, and whom its listener and its callers trust
-- (crates/kot/src/node.rs). Accounts are of a type `A` (`AccountId`), names of a type `N` (`String`).
use akuma_miot.Prelude.{
  Bool, true, false, not, ◌||◌, List, [], ◌∷◌, ◌++◌, map, any, keep, if◌then◌else◌, Eq,
}

-- What the sets are made of in `NodeConfig`.
pub record Config (N A : Type 0) : Type 0 where
  pub root : A
  pub leader : A
  pub roster : List (N × A)
  pub patrons : List (N × A)
  pub identity : A

-- What `Node` keeps of them.
pub record Access (N A : Type 0) : Type 0 where
  pub genesis_root : A
  pub genesis_leader : A
  pub members : List A
  pub patrons : List (N × A)
  pub chain_patrons : List (N × A)
  pub static_readers : List A
  pub tls_readers : List A
  pub identity : A

module _ {N A : Type 0} where
  abbrev pub members_of : List (N × A) → List A
  members_of roster = map (λ (x : N × A). x.1) roster

module _ {A : Type 0} ⦃e : Eq A⦄ where
  -- `Vec::contains`
  unfoldable pub contains : List A → A → Bool
  contains [] a = false
  contains (x ∷ xs) a = let rest = contains xs a in if e.beq x a then true else rest

  -- The body of both loops that add accounts to a set.
  unfoldable pub add : List A → A → List A
  unfolding contains
  add v a = if contains v a then v else v ++ a ∷ []

  unfoldable pub add_all : List A → List A → List A
  unfolding add
  add_all v [] = v
  add_all v (a ∷ rest) = add_all (add v a) rest

  unfoldable pub trusted_accounts : List A → A → A → List A
  unfolding add_all
  trusted_accounts members root leader = add_all members (root ∷ leader ∷ [])

module _ {N A : Type 0} ⦃e : Eq A⦄ where
  unfoldable pub reader_accounts : Config N A → List A
  unfolding trusted_accounts add_all
  reader_accounts cfg =
      add_all (trusted_accounts (members_of cfg.roster) cfg.root cfg.leader)
        (members_of cfg.patrons ++ cfg.identity ∷ [])

  -- The fields of `Node::open`.
  unfoldable pub open_access : Config N A → Access N A
  unfolding reader_accounts
  open_access cfg = record {
    genesis_root = cfg.root;
    genesis_leader = cfg.leader;
    members = members_of cfg.roster;
    patrons = cfg.patrons;
    chain_patrons = [];
    static_readers = reader_accounts cfg;
    tls_readers = reader_accounts cfg;
    identity = cfg.identity;
  }

  unfoldable pub is_trusted_signer : Access N A → A → Bool
  unfolding contains
  is_trusted_signer n a =
      contains n.members a || (e.beq a n.genesis_root || e.beq a n.genesis_leader)

  unfoldable pub trusted_set : Access N A → List A
  unfolding trusted_accounts
  trusted_set n = trusted_accounts n.members n.genesis_root n.genesis_leader

  unfoldable pub is_chain_patron : Access N A → A → Bool
  unfolding any
  is_chain_patron n a = any (λ (f : N × A). e.beq f.1 a) n.chain_patrons

  unfoldable pub is_reader : Access N A → A → Bool
  unfolding is_trusted_signer is_chain_patron any
  is_reader n a =
      is_trusted_signer n a
      || (e.beq a n.identity || (any (λ (f : N × A). e.beq f.1 a) n.patrons || is_chain_patron n a))

  unfoldable pub can_write : Access N A → A → Bool
  unfolding is_trusted_signer is_chain_patron
  can_write n a = is_trusted_signer n a || is_chain_patron n a

  -- `patrons` are those of the pallet, with their names.
  unfoldable pub refresh_patrons : Access N A → List (N × A) → Access N A
  unfolding keep contains
  refresh_patrons n patrons = record n {
    chain_patrons = patrons;
    tls_readers =
        n.static_readers ++ keep (λ a. not (contains n.static_readers a)) (members_of patrons);
  }

  -- A node that was opened, and re-read the patrons of the chain any number of times.
  unfoldable pub refreshed : Access N A → List (List (N × A)) → Access N A
  unfolding refresh_patrons
  refreshed n [] = n
  refreshed n (patrons ∷ later) = refreshed (refresh_patrons n patrons) later
