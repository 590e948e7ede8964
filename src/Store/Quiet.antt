-- ===== src/Store/Quiet.antt =====
-- Which operations of internal/store/store.go leave the store open or closed, and without a list.
use self_healing_distributed.Prelude.{
  ℕ, ◌≡◌, refl, ◌∙◌, String, Bool, true, false, Option, none, some, [], ◌∷◌, arith, string_key,
  Bool-cases, inl, inr, if◌then◌else◌,
}
use self_healing_distributed.Prelude.Map.{Map, lookup}
use self_healing_distributed.Time.{is_expired}
use self_healing_distributed.Store.{
  Entry, Store, put_entry, detach, touch_item, move_to_front, delete_item, delete_locked,
  remove_element, put_detached,
}
use self_healing_distributed.Store.Access.{
  Read, missing, expired, found, get_finish, still_expired, still_element, sweep, sweep_entries,
}
use self_healing_distributed.Store.Written.{put-unlisted}

-- A store without a list is a store from `New`: it has no eviction.
abbrev pub IsUnlisted : Store → Type 0
IsUnlisted s = s.lru_list ≡ none

-- `t` is open or closed as `s` is, and has no list if `s` has none.
pub record IsQuiet (s t : Store) : Type 0 where
  pub closed : t.closed ≡ s.closed
  pub unlisted : IsUnlisted s → IsUnlisted t

pub IsQuiet-refl : (s : Store) → IsQuiet s s
IsQuiet-refl s = record { closed = refl; unlisted = λ p. p }

pub IsQuiet-trans : {s t u : Store} → IsQuiet s t → IsQuiet t u → IsQuiet s u
IsQuiet-trans h k = record {
  closed = k.closed ∙ h.closed;
  unlisted = λ p. k.unlisted (h.unlisted p);
}

delete_item-IsQuiet :
    (key : String) (o : Option Entry) (s : Store) → IsQuiet s (delete_item key o s)
unfolding delete_item remove_element
delete_item-IsQuiet key none s = IsQuiet-refl s
delete_item-IsQuiet key (some item) s = record { closed = refl; unlisted = λ p. ground arith }

pub delete_locked-IsQuiet : (key : String) (s : Store) → IsQuiet s (delete_locked key s)
unfolding delete_locked
delete_locked-IsQuiet key s = delete_item-IsQuiet key (lookup key s.entries) s

sweep_entries-IsQuiet :
    (now : ℕ) (m : Map String Entry) (s : Store) → IsQuiet s (sweep_entries now m s)
unfolding sweep_entries
sweep_entries-IsQuiet now [] s = IsQuiet-refl s
sweep_entries-IsQuiet now ((key, item) ∷ m) s = elim (Bool-cases (is_expired item.expires_at now)) [
  | inl dead ↦ rw dead (
      IsQuiet-trans (delete_locked-IsQuiet key s)
        (sweep_entries-IsQuiet now m (delete_locked key s)))
  | inr alive ↦ rw alive (sweep_entries-IsQuiet now m s)
]

pub sweep-IsQuiet : (now : ℕ) (s : Store) → IsQuiet s (sweep now s)
unfolding sweep
sweep-IsQuiet now s = go s.closed
  where
    go : (b : Bool) → IsQuiet s (if b then s else sweep_entries now s.entries s)
    go true = IsQuiet-refl s
    go false = sweep_entries-IsQuiet now s.entries s

move-IsQuiet :
    (id : ℕ) (s : Store) → IsQuiet s (record s { lru_list = move_to_front id s.lru_list })
unfolding move_to_front
move-IsQuiet id s = record { closed = refl; unlisted = λ p. rw p }

pub get_finish-IsQuiet :
    (key : String) (r : Read) (now : ℕ) (s : Store) → IsQuiet s (get_finish key r now s)
unfolding get_finish
get_finish-IsQuiet key missing now s = IsQuiet-refl s
get_finish-IsQuiet key expired now s =
    elim (Bool-cases (still_expired (lookup key s.entries) now)) [
      | inl dead ↦ rw dead (delete_locked-IsQuiet key s)
      | inr alive ↦ rw alive (IsQuiet-refl s)
    ]
get_finish-IsQuiet key (found value none) now s = IsQuiet-refl s
get_finish-IsQuiet key (found value (some id)) now s =
    elim (Bool-cases (still_element (lookup key s.entries) id)) [
      | inl same ↦ rw same (move-IsQuiet id s)
      | inr other ↦ rw other (IsQuiet-refl s)
    ]

pub touch_item-IsQuiet : (o : Option Entry) (s : Store) → IsQuiet s (touch_item o s)
unfolding touch_item
touch_item-IsQuiet none s = IsQuiet-refl s
touch_item-IsQuiet (some item) s = go item.lru_element
  where
    go :
        (o : Option ℕ)
        → IsQuiet s
            (elim o [ none ↦ s | some id ↦ record s { lru_list = move_to_front id s.lru_list } ])
    go none = IsQuiet-refl s
    go (some id) = move-IsQuiet id s

detach_closed : (o : Option Entry) (s : Store) → (detach o s).closed ≡ s.closed
unfolding detach
detach_closed none s = refl
detach_closed (some item) s = refl

pub put_entry-IsQuiet :
    (key value : String) (expires_at version : ℕ) (s : Store)
    → IsQuiet s (put_entry key value expires_at version s)
put_entry-IsQuiet key value expires_at version s = record {
  closed = unfold put_entry put_detached in detach_closed (lookup key s.entries) s;
  unlisted = put-unlisted key value expires_at version s;
}
