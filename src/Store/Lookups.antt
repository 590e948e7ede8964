-- ===== src/Store/Lookups.antt =====
-- What a lookup finds after each operation of internal/store/store.go, before any eviction.
use self_healing_distributed.Prelude.{
  ℕ, ◌≡◌, refl, ◌∙◌, String, Bool, true, false, Option, none, some, [], ◌∷◌, arith, string_key,
  nat_key, ◌==◌, if◌then◌else◌,
}
use self_healing_distributed.Prelude.Map.{Map, lookup, Distinct, lookup-insert, lookup-delete}
use self_healing_distributed.Time.{is_expired}
use self_healing_distributed.Store.{
  Entry, Store, delete_item, delete_locked, detach, put_detached, put_entry, touch_item, touch_lru,
  get_with_version, live_item, get_expiry, expires_at_of, has_version, set_version,
}
use self_healing_distributed.Store.Access.{
  Read, missing, expired, found, get_finish, still_expired, sweep_entries, sweep, get, get_read,
  read_item, result_of,
}
use self_healing_distributed.Store.Invariant.{entries-detach, new_entry}

module _ (key : String) where
  delete_item-lookup :
      (o : Option Entry) (s : Store) (k : String)
      → lookup key s.entries ≡ o
      → lookup k (delete_item key o s).entries ≡ (if key == k then none else lookup k s.entries)
  unfolding delete_item
  delete_item-lookup none s k p = ground (arith, string_key.equals_iff key k)
  delete_item-lookup (some item) s k p = lookup-delete key k s.entries

  pub delete_locked-lookup :
      (s : Store) (k : String)
      → lookup k (delete_locked key s).entries ≡ (if key == k then none else lookup k s.entries)
  unfolding delete_locked
  delete_locked-lookup s k = delete_item-lookup (lookup key s.entries) s k refl

  pub put_entry-lookup :
      (value : String) (expires_at version : ℕ) (s : Store) (k : String)
      → lookup k (put_entry key value expires_at version s).entries ≡ (
          if key == k
          then some (new_entry key value expires_at version (detach (lookup key s.entries) s))
          else lookup k s.entries)
  unfolding put_entry put_detached new_entry
  put_entry-lookup value expires_at version s k =
      rw (entries-detach (lookup key s.entries) s) (lookup-insert key k _ s.entries)

  -- The second half of `Get` takes away the entry of its own key, where that has expired.
  pub get_finish-lookup :
      (r : Read) (now : ℕ) (s : Store) (k : String)
      → lookup k (get_finish key r now s).entries ≡ (elim r [
        | missing ↦ lookup k s.entries
        | expired ↦
            if key == k
            then (if still_expired (lookup k s.entries) now then none else lookup k s.entries)
            else lookup k s.entries
        | found value element ↦ lookup k s.entries
      ])
  unfolding get_finish
  get_finish-lookup missing now s k = refl
  get_finish-lookup expired now s k =
      ground (arith, delete_locked-lookup s k, string_key.equals_iff key k)
  get_finish-lookup (found value none) now s k = refl
  get_finish-lookup (found value (some id)) now s k = ground arith

touch_item-entries : (o : Option Entry) (s : Store) → (touch_item o s).entries ≡ s.entries
unfolding touch_item
touch_item-entries none s = refl
touch_item-entries (some item) s = ground arith

pub touch_lru-entries : (key : String) (s : Store) → (touch_lru key s).entries ≡ s.entries
unfolding touch_lru
touch_lru-entries key s = touch_item-entries (lookup key s.entries) s

-- An entry, unless it has expired.
abbrev pub live : ℕ → Option Entry → Option Entry
live now none = none
live now (some item) = if is_expired item.expires_at now then none else some item

-- the same, for the part of the entries that the `range` still visits
abbrev unswept : ℕ → Option Entry → Option Entry → Option Entry
unswept now none o = o
unswept now (some item) o = if is_expired item.expires_at now then none else o

sweep_entries-lookup :
    (now : ℕ) (m : Map String Entry) (s : Store) (k : String)
    → Distinct m
    → lookup k (sweep_entries now m s).entries ≡ unswept now (lookup k m) (lookup k s.entries)
unfolding sweep_entries lookup
sweep_entries-lookup now [] s k d = refl
sweep_entries-lookup now ((key, item) ∷ m) s k d = ground (
  arith,
  sweep_entries-lookup now m (delete_locked key s) k d.1,
  sweep_entries-lookup now m s k d.1,
  delete_locked-lookup key s k,
  string_key.equals_iff key k,
  d.0,
)

unswept_self : (now : ℕ) (o : Option Entry) → unswept now o o ≡ live now o
unswept_self now none = refl
unswept_self now (some item) = refl

-- Where each key stands once, a tick of the sweep of an open store takes away the entries that have
-- expired and leaves every other key as it was; on a closed store it does nothing.
pub sweep-lookup :
    (now : ℕ) (s : Store) (k : String)
    → Distinct s.entries
    → lookup k (sweep now s).entries
      ≡ (if s.closed then lookup k s.entries else live now (lookup k s.entries))
unfolding sweep
sweep-lookup now s k d = go s.closed
  where
    go :
        (b : Bool)
        → lookup k (if b then s else sweep_entries now s.entries s).entries
          ≡ (if b then lookup k s.entries else live now (lookup k s.entries))
    go true = refl
    go false = sweep_entries-lookup now s.entries s k d ∙ unswept_self now (lookup k s.entries)

-- What a read by version finds, by the entry that is there.
module _ (key : String) (now : ℕ) (s : Store) where
  pub get_with_version-none : lookup key s.entries ≡ none → get_with_version key now s ≡ none
  unfolding get_with_version live_item
  get_with_version-none p = rw p refl

  pub get_with_version-some :
      (item : Entry)
      → lookup key s.entries ≡ some item
      → get_with_version key now s ≡ (
          if is_expired item.expires_at now
          then none
          else some (item.value, item.version, item.expires_at))
  unfolding get_with_version live_item
  get_with_version-some item p = rw p refl

-- A version that is not newer changes nothing.
pub set_version-stale :
    (key value : String) (expires_at version : ℕ) (s : Store)
    → has_version (lookup key s.entries) version ≡ true
    → set_version key value expires_at version s ≡ (false, s)
unfolding set_version
set_version-stale key value expires_at version s p = rw p refl

-- `Get` of an entry that is there and has not expired.
pub get-found :
    (key : String) (now now' : ℕ) (s : Store) (item : Entry)
    → lookup key s.entries ≡ some item
    → is_expired item.expires_at now ≡ false
    → get key now now' s
      ≡ (some item.value, get_finish key (found item.value item.lru_element) now' s)
unfolding get get_read read_item result_of
get-found key now now' s item p h = rw (p, h) refl

pub get_expiry-found :
    (key : String) (s : Store) (item : Entry)
    → lookup key s.entries ≡ some item
    → get_expiry key s ≡ item.expires_at
unfolding get_expiry expires_at_of
get_expiry-found key s item p = rw p refl
