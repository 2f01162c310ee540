-- ===== src/Register/Published.antt =====
-- The table of published entries of a task collection token: data_structures/concurrent_map.hpp's
-- `evaluate_at`, and the entry that the callables make where there is none (publish.hpp).
use darma_simple_backend.Prelude.{
  ℕ, ◌+◌, false, Bool, Option, none, some, List, [], ◌∷◌, update, if◌then◌else◌, ◌==◌, ◌&&◌,
}
use darma_simple_backend.Machine.Types.{Key, user_key, backend_key}
use darma_simple_backend.Machine.Monad.{ok, M, pure, and_then, ◌>>=◌}
use darma_simple_backend.Machine.Counter.{make_counter}

abbrev PublicationKey : Type 0
PublicationKey = Key × Key × ℕ

abbrev key_eq : Key → Key → Bool
key_eq (user_key i) (user_key j) = i == j
key_eq (user_key i) (backend_key j) = false
key_eq (backend_key i) (user_key j) = false
key_eq (backend_key i) (backend_key j) = i == j

abbrev publication_eq : PublicationKey → PublicationKey → Bool
publication_eq (a, v, i) (b, w, j) = key_eq a b && key_eq v w && i == j

-- `data_[key]`: a missing key has the value that the map would insert, an entry with no object.
unfoldable pub entry_at : PublicationKey → List (PublicationKey × Option ℕ) → Option ℕ
entry_at k [] = none
entry_at k ((j, e) ∷ m) = if publication_eq k j then e else entry_at k m

unfoldable put_entry :
    PublicationKey → Option ℕ → List (PublicationKey × Option ℕ) → List (PublicationKey × Option ℕ)
put_entry k e [] = (k, e) ∷ []
put_entry k e ((j, d) ∷ m) = if publication_eq k j then (j, e) ∷ m else (j, d) ∷ put_entry k e m

-- `std::make_shared<PublicationTableEntry::Impl>()`
unfoldable make_entry : M ℕ
unfolding make_counter
make_entry = do
  fetching ← make_counter 1
  release ← make_counter 1
  λ s. ok (
    s.next_entry,
    record s {
      entries = update s.entries s.next_entry (record {
        source_flow = none;
        fetching_join_counter = fetching;
        release_event = release;
      });
      next_entry = s.next_entry + 1;
    },
  )

unfoldable or_make : Option ℕ → M ℕ
unfolding make_entry
or_make (some e) = pure e
or_make none = make_entry

-- The entry under the key, made if it is not there yet.
unfoldable pub with_entry : ℕ → PublicationKey → M ℕ
unfolding or_make entry_at put_entry
with_entry token k s =
    let found = entry_at k (s.tokens token).current_published_entries in
    and_then (or_make found s) (λ e t. ok (
      e,
      record t {
        tokens = update t.tokens token (record (t.tokens token) {
          current_published_entries =
              put_entry k (some e) (t.tokens token).current_published_entries;
        });
      },
    ))
