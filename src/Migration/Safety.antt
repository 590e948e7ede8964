-- ===== src/Migration/Safety.antt =====
-- A migration of internal/rebalance/rebalance.go between two nodes moves the key with its value and
-- its expiry.
use self_healing_distributed.Prelude.{
  ℕ, suc, ◌≡◌, ◌≢◌, refl, sym, ap, ◌∙◌, String, false, none, some, arith, ◌==◌, nat_key, string_key,
  if◌then◌else◌,
}
use self_healing_distributed.Prelude.Map.{lookup}
use self_healing_distributed.Time.{is_expired, unix_milli}
use self_healing_distributed.Http.{decode, text_field, number_field, text_of, number_of}
use self_healing_distributed.Placement.{Placement}
use self_healing_distributed.Store.{Entry, get_with_version, next_version, set_with_expiry}
use self_healing_distributed.Store.Access.{found, remove}
use self_healing_distributed.Store.Lookups.{get_finish-lookup, delete_locked-lookup}
use self_healing_distributed.Store.Invariant.{IsValid, size_of}
use self_healing_distributed.Store.Written.{Fits, set_with_expiry-get}
use self_healing_distributed.Server.{expiry_of_wire}
use self_healing_distributed.Rebalance.{
  Migration, execute_migration, bare_request, accept_request, decode_pulled, with_status, complete,
  push, verifying,
}
use self_healing_distributed.Migration.{Pair}
use self_healing_distributed.Migration.Steps.{
  IsHeld, touched, pulled_of, serve-pull, serve-accept, serve_complete, execute-answered,
  push-answered, push-unreachable, network, fetch-old, fetch-new, fetch-away,
}

module _ (place : Placement) (old_addr new_addr : String) where
  -- both nodes after the migration of the key from the first to the second
  abbrev migrated : String → Entry → Pair → Pair
  migrated key item p = record {
    old = record p.old { store = remove key (touched key item p.old (suc p.clock)) };
    new = record p.new {
      store =
          set_with_expiry key item.value (expiry_of_wire (unix_milli item.expires_at)) p.new.store;
    };
    clock = suc (suc p.clock);
  }

  execute-migrated :
      (m : Migration) (item : Entry) (p : Pair)
      → old_addr ≢ new_addr
      → m.new_owner.addr ≡ new_addr
      → IsHeld m.key item p.old p.clock
      → execute_migration (network place old_addr new_addr) m old_addr p
        ≡ (none, with_status complete m, migrated m.key item p)
  unfolding bare_request accept_request decode_pulled decode text_field number_field text_of
      number_of lookup
  execute-migrated m item p apart to h =
      let same = (string_key.equals_iff old_addr old_addr).1 refl in
      let other : (m.new_owner.addr == old_addr) ≡ false =
        ground (arith, string_key.equals_iff m.new_owner.addr old_addr, sym to) in
      let there = (string_key.equals_iff m.new_owner.addr new_addr).1 to in
      let pulled = pulled_of m.key item in
      let pull_step =
        fetch-old place old_addr new_addr (bare_request old_addr "/rebalance/pull" m.key) p _ _ _
          same (serve-pull place m.key old_addr item p.old p.clock h) in
      let s1 = record p.old { store = touched m.key item p.old (suc p.clock) } in
      let p1 : Pair = record { old = s1; new = p.new; clock = suc (suc p.clock) } in
      let push_step =
        fetch-new place old_addr new_addr (accept_request m.new_owner.addr m.key pulled) p1 _ _ _
          other there (serve-accept place m.key m.new_owner.addr pulled p1.new p1.clock h.named) in
      let p2 : Pair = record { old = s1; new = (migrated m.key item p).new; clock = p1.clock } in
      let complete_step =
        fetch-old place old_addr new_addr (bare_request old_addr "/rebalance/complete" m.key) p2 _ _
          _ same (serve_complete place m.key old_addr p2.old p2.clock h.named) in
      execute-answered (network place old_addr new_addr) m old_addr _ pulled p p1 pull_step refl
      ∙ push-answered (network place old_addr new_addr) m old_addr _ pulled p1 p2 push_step
      ∙ ap (λ x. (none, with_status complete m, x.1)) complete_step

  -- A migration between two nodes with different addresses, of a key that the old node holds
  -- unexpired, to a new node whose store is well formed and has room for it, reports no error.
  -- After it the old node does not have the key, and has all its other keys as before; the new
  -- node has the value, with the next version that it has for the key, and with the expiry as it
  -- went over the wire, after which a read of the key finds nothing.
  pub migration-moves :
      (m : Migration) (item : Entry) (p : Pair)
      → old_addr ≢ new_addr
      → m.new_owner.addr ≡ new_addr
      → IsHeld m.key item p.old p.clock
      → IsValid p.new.store
      → Fits p.new.store (size_of m.key item.value)
      → let (error, m', p') = execute_migration (network place old_addr new_addr) m old_addr p in
        let expiry = expiry_of_wire (unix_milli item.expires_at) in
        (error ≡ none)
        × (m'.status ≡ complete)
        × ((k : String)
            → lookup k p'.old.store.entries
              ≡ (if m.key == k then none else lookup k p.old.store.entries))
        × ((now : ℕ)
            → get_with_version m.key now p'.new.store ≡ (
                if is_expired expiry now
                then none
                else some (item.value, next_version (lookup m.key p.new.store.entries), expiry)))
  unfolding with_status remove
  migration-moves m item p apart to h v fits =
      let q = migrated m.key item p in
      let t = touched m.key item p.old (suc p.clock) in
      rw (execute-migrated m item p apart to h) (
        refl,
        refl,
        λ k. ground (
          arith,
          delete_locked-lookup m.key t k,
          get_finish-lookup m.key (found item.value item.lru_element) (suc p.clock) p.old.store k,
        ),
        λ now.
            set_with_expiry-get m.key item.value (expiry_of_wire (unix_milli item.expires_at)) now
              p.new.store v fits,
      )

  -- Where no node has the address of the new owner, the migration of a key that the old node
  -- holds unexpired fails after the pull: the new node is as it was, and the old node has all its
  -- keys.
  pub migration-keeps :
      (m : Migration) (item : Entry) (p : Pair)
      → (m.new_owner.addr == old_addr) ≡ false
      → (m.new_owner.addr == new_addr) ≡ false
      → IsHeld m.key item p.old p.clock
      → let (error, m', p') = execute_migration (network place old_addr new_addr) m old_addr p in
        (error ≡ some push)
        × (m'.status ≡ verifying)
        × (p'.new ≡ p.new)
        × ((k : String) → lookup k p'.old.store.entries ≡ lookup k p.old.store.entries)
  unfolding bare_request accept_request decode_pulled decode text_field number_field text_of
      number_of lookup with_status
  migration-keeps m item p apart away h =
      let pulled = pulled_of m.key item in
      let same = (string_key.equals_iff old_addr old_addr).1 refl in
      let pull_step =
        fetch-old place old_addr new_addr (bare_request old_addr "/rebalance/pull" m.key) p _ _ _
          same (serve-pull place m.key old_addr item p.old p.clock h) in
      let s1 = record p.old { store = touched m.key item p.old (suc p.clock) } in
      let p1 : Pair = record { old = s1; new = p.new; clock = suc (suc p.clock) } in
      let push_step =
        fetch-away place old_addr new_addr (accept_request m.new_owner.addr m.key pulled) p1 apart
          away in
      rw
        (execute-answered (network place old_addr new_addr) m old_addr _ pulled p p1 pull_step refl
          ∙ push-unreachable (network place old_addr new_addr) m old_addr pulled p1 p1 push_step)
        (
          refl,
          refl,
          refl,
          λ k.
              get_finish-lookup m.key (found item.value item.lru_element) (suc p.clock) p.old.store
                k,
        )
