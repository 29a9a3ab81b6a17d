-- ===== src/Litter/Invariant/Door.antt =====
-- The maps of patrons and of their requests in crates/pallet-litter/src/lib.rs: each change that the
-- patron calls make keeps them guarded.
use akuma_miot.Prelude.{◌<◌, ◌≡◌, false, none, some, List, arith, length, Eq}
use akuma_miot.Primitives.Text.{Text}
use akuma_miot.Mesh.Maps.{text_eq_iff}
use akuma_miot.Litter.Maps.{lookup, insert, remove, contains_key}
use akuma_miot.Litter.Maps.Keys.{
  length-insert, length-remove, insert-NodupKeys, remove-NodupKeys, named-insert, named-remove,
  named-remove_le, contains-insert, contains-remove,
}
use akuma_miot.Litter.Storage.{Patron, PatronRequest, max_patron_requests}
use akuma_miot.Litter.Invariant.{IsGuarded, taken, patron_name, request_name}

module _ {A : Type 0} ⦃e : Eq A⦄ (roster : List (Text × A)) (patrons : List (A × Patron A))
    (requests : List (A × PatronRequest A)) (h : IsGuarded roster patrons requests) (who : A) where
  pub drop_request-IsGuarded : IsGuarded roster patrons (remove who requests)
  unfolding taken
  drop_request-IsGuarded = record {
    pending = omega (arith, length-remove who requests, h.pending);
    patron_keys = h.patron_keys;
    request_keys = remove-NodupKeys who requests h.request_keys;
    strangers = λ a p. ground (arith, contains-remove a who requests, h.strangers a p);
    names = λ n. omega (arith, named-remove_le request_name n who requests, h.names n);
  }

  pub drop_patron-IsGuarded : IsGuarded roster (remove who patrons) requests
  unfolding taken
  drop_patron-IsGuarded = record {
    pending = h.pending;
    patron_keys = remove-NodupKeys who patrons h.patron_keys;
    request_keys = h.request_keys;
    strangers = λ a p. ground (arith, contains-remove a who patrons, h.strangers a);
    names = λ n. omega (arith, named-remove_le patron_name n who patrons, h.names n);
  }

  pub add_request-IsGuarded :
      (r : PatronRequest A)
      → length requests < max_patron_requests
      → contains_key who patrons ≡ false
      → lookup who requests ≡ none
      → taken roster patrons requests r.name ≡ 0
      → IsGuarded roster patrons (insert who r requests)
  unfolding taken
  add_request-IsGuarded r l p q t = record {
    pending = omega (arith, length-insert who r requests);
    patron_keys = h.patron_keys;
    request_keys = insert-NodupKeys who r requests h.request_keys;
    strangers =
        λ a pa. grind (arith, contains-insert a who r requests, e.beq_iff who a, h.strangers a pa);
    names = λ n.
        grind
          (arith, named-insert request_name n who r requests q, text_eq_iff r.name n, h.names n);
  }

  pub admit-IsGuarded :
      (r : PatronRequest A) (p : Patron A)
      → lookup who requests ≡ some r
      → p.name ≡ r.name
      → contains_key who patrons ≡ false
      → lookup who patrons ≡ none
      → IsGuarded roster (insert who p patrons) (remove who requests)
  unfolding taken
  admit-IsGuarded r p q t u v = record {
    pending = omega (arith, length-remove who requests, h.pending);
    patron_keys = insert-NodupKeys who p patrons h.patron_keys;
    request_keys = remove-NodupKeys who requests h.request_keys;
    strangers = λ a pa.
        grind
          (arith, contains-insert a who p patrons, contains-remove a who requests, h.strangers a);
    names = λ n. grind (
      arith,
      named-insert patron_name n who p patrons v,
      named-remove request_name n who r requests h.request_keys q,
      t,
      h.names n,
    );
  }
