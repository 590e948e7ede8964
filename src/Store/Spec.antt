-- ===== src/Store/Spec.antt =====
-- What the store of internal/store/store.go promises where nothing is evicted: a map from keys to
-- items, with the order of use, the sizes and the order of the entries forgotten.
use self_healing_distributed.Prelude.{
  ℕ, String, Bool, true, false, Option, none, some, List, [], ◌∷◌, string_key, ◌==◌, if◌then◌else◌,
}
use self_healing_distributed.Prelude.Int64.{add64, sle}
use self_healing_distributed.Prelude.Map.{lookup}
use self_healing_distributed.Time.{is_expired}
use self_healing_distributed.Store.{Entry, Store, expiry_of_ttl}
use self_healing_distributed.Store.Access.{missing, expired, found}
use self_healing_distributed.Store.History.{
  Operation, write, write_with_expiry, write_version, finish, touch, erase, tick, stop,
}

pub record Item : Type 0 where
  pub value : String
  pub version : ℕ
  pub expires_at : ℕ

-- A map from keys to items, and whether the sweep has been stopped.
pub record Spec : Type 0 where
  pub closed : Bool
  pub items : String → Option Item

unfoldable pub forget : Option Entry → Option Item
forget none = none
forget (some item) =
    some (record { value = item.value; version = item.version; expires_at = item.expires_at })

unfoldable pub view : Store → Spec
unfolding forget
view s = record { closed = s.closed; items = λ k. forget (lookup k s.entries) }

-- A new item has version 1; the next ones count up.
unfoldable pub next : Option Item → ℕ
next none = 1
next (some item) = add64 item.version 1

unfoldable pub has : Option Item → ℕ → Bool
has none version = false
has (some item) version = sle version item.version

unfoldable pub unexpired : ℕ → Option Item → Option Item
unexpired now none = none
unexpired now (some item) = if is_expired item.expires_at now then none else some item

unfoldable pub assign : String → Option Item → Spec → Spec
assign key o p = record p { items = λ k. if key == k then o else p.items k }

unfoldable pub put : String → String → ℕ → ℕ → Spec → Spec
unfolding assign
put key value expires_at version =
    assign key (some (record { value = value; version = version; expires_at = expires_at }))

-- What each operation means on the map.
unfoldable pub meaning : Operation → Spec → Spec
unfolding put next has unexpired assign
meaning (write key value ttl now) p = put key value (expiry_of_ttl ttl now) (next (p.items key)) p
meaning (write_with_expiry key value expires_at) p = put key value expires_at (next (p.items key)) p
meaning (write_version key value expires_at version) p =
    if has (p.items key) version then p else put key value expires_at version p
meaning (finish key missing now) p = p
meaning (finish key expired now) p = assign key (unexpired now (p.items key)) p
meaning (finish key (found value element) now) p = p
meaning (touch key) p = p
meaning (erase key) p = assign key none p
meaning (tick now) p = if p.closed then p else record p { items = λ k. unexpired now (p.items k) }
meaning stop p = record p { closed = true }

unfoldable pub meanings : List Operation → Spec → Spec
unfolding meaning
meanings [] p = p
meanings (op ∷ ops) p = meanings ops (meaning op p)
