-- ===== src/Server/Majority.antt =====
-- The quorum reads and writes of internal/server/server.go.
use self_healing_distributed.Prelude.{
  ℕ, zero, suc, ◌+◌, ◌<◌, ◌≡◌, refl, ap, ◌∙◌, String, Bool, true, false, Option, none, some, List,
  [], ◌∷◌, arith, length, ltb, get_elem?, string_key, nat_key, Bool-cases, inl, inr,
}
use self_healing_distributed.Prelude.Int64.{slt, sle}
use self_healing_distributed.Prelude.Map.{lookup}
use self_healing_distributed.Time.{is_expired}
use self_healing_distributed.Http.{
  Env, Response, decode, number_field, number_of, text, number, write_json, write_error, ok,
}
use self_healing_distributed.Placement.{Placement}
use self_healing_distributed.Store.{Entry, get_with_version, has_version}
use self_healing_distributed.Store.Lookups.{get_with_version-some, set_version-stale}
use self_healing_distributed.Server.{Server}
use self_healing_distributed.Server.Quorum.{
  QuorumSetRequest, NodeResponse, quorum_needed, version_of, acks_response, answer_of, best_of,
}
use self_healing_distributed.Server.Quorum.Handlers.{quorum_write}

-- A number in the answer.
abbrev pub reported : String → Response → Option ℕ
reported name resp = elim (decode resp.body) [ none ↦ none | some m ↦ number_field name m ]

-- Two majorities of a replication group have a member in common.
majorities_meet :
    (n a b : ℕ) → ltb a (quorum_needed n) ≡ false → ltb b (quorum_needed n) ≡ false → n + 1 < a + b
unfolding quorum_needed
majorities_meet n a b h k = ground arith

answer_of-majority :
    (key : String) (n : ℕ) (responses : List NodeResponse)
    → (answer_of key n responses).status ≡ ok
    → ltb (length responses) (quorum_needed n) ≡ false
unfolding answer_of write_json write_error
answer_of-majority key n [] h = absurd (ground arith)
answer_of-majority key n (r ∷ rs) h = elim (Bool-cases (ltb (length (r ∷ rs)) (quorum_needed n))) [
  | inl few ↦ absurd (ground (arith, h))
  | inr many ↦ many
]

-- No response of the list is newer than the number.
abbrev pub AllOlder : ℕ → List NodeResponse → Type 0
AllOlder version rs =
    (j : ℕ) (x : NodeResponse) → get_elem? rs j ≡ some x → slt version x.version ≡ false

AllOlder-cons :
    (version : ℕ) (r : NodeResponse) (rs : List NodeResponse)
    → slt version r.version ≡ false
    → AllOlder version rs
    → AllOlder version (r ∷ rs)
AllOlder-cons version r rs h k zero x p = ground arith
AllOlder-cons version r rs h k (suc j) x p = k j x p

acks_response-majority :
    (acks : ℕ) (failing : Bool) (needed version : ℕ)
    → (acks_response acks failing needed version).status ≡ ok
    → (ltb (acks + 1) needed ≡ false)
      × (reported "acks" (acks_response acks failing needed version) ≡ some (acks + 1))
unfolding acks_response write_json decode number_field number_of lookup
acks_response-majority acks failing needed version h = elim (Bool-cases (ltb (acks + 1) needed)) [
  | inl few ↦ absurd (ground (arith, h))
  | inr many ↦ (many, rw many refl)
]

-- The best response is one of them, and none is newer.
best_of-newest :
    (best : NodeResponse) (rs : List NodeResponse)
    → let b = best_of best rs in
      AllOlder b.version (best ∷ rs) × ((i : ℕ) × (get_elem? (best ∷ rs) i ≡ some b))
unfolding best_of
best_of-newest best [] = (
  AllOlder-cons best.version best [] (ground arith) (λ j x p. absurd (ground arith)),
  (zero, refl),
)
best_of-newest best (r ∷ rs) = elim (Bool-cases (slt best.version r.version)) [
  | inl newer ↦
      let (older, (i, p)) = best_of-newest r rs in
      let own = older zero r refl in
      rw (newer, best_of)
        (AllOlder-cons (best_of r rs).version best (r ∷ rs) (ground arith) older, (suc i, p))
  | inr older ↦
      let (rest, (i, p)) = best_of-newest best rs in
      let own = rest zero best refl in
      let tail : AllOlder (best_of best rs).version rs = λ j x q. rest (suc j) x q in
      rw (older, best_of)
        (
          AllOlder-cons (best_of best rs).version best (r ∷ rs) own
              (AllOlder-cons (best_of best rs).version r rs (ground arith) tail),
          (skip i, skipped i p),
        )
]
  where
    skip : ℕ → ℕ
    skip zero = zero
    skip (suc i) = suc (suc i)

    skipped :
        (i : ℕ)
        → get_elem? (best ∷ rs) i ≡ some (best_of best rs)
        → get_elem? (best ∷ r ∷ rs) (skip i) ≡ some (best_of best rs)
    skipped zero p = p
    skipped (suc i) p = p

-- Where a quorum read answers 200, it answers with one of the responses, and none of them has a
-- greater version; and the responses are a majority of the replicas and one more node.
pub answer_of-newest :
    (key : String) (n : ℕ) (responses : List NodeResponse)
    → (answer_of key n responses).status ≡ ok
    → (b : NodeResponse) × (i : ℕ) × (get_elem? responses i ≡ some b)
      × AllOlder b.version responses
      × (n + 1 < length responses + length responses)
      × (answer_of key n responses
          ≡ write_json ok (
              ("key", text key)
              ∷ ("value", text b.value)
              ∷ ("version", number b.version)
              ∷ ("from", text b.node_id)
              ∷ []))
unfolding answer_of write_error write_json
answer_of-newest key n [] h = absurd (ground arith)
answer_of-newest key n (r ∷ rs) h =
    let (older, (i, p)) = best_of-newest r rs in
    let many = answer_of-majority key n (r ∷ rs) h in
    (
      best_of r rs,
      i,
      p,
      older,
      majorities_meet n (length (r ∷ rs)) (length (r ∷ rs)) many many,
      rw (many, answer_of) refl,
    )

module _ {W : Type 0} (env : Env W) (place : Placement) where
  -- Where a quorum write of a key answers 200, and the responses to a quorum read of it are
  -- answered with 200, the acknowledgements that the write reports and the responses are together
  -- more than the replicas and one more node.
  pub quorum_write-meets :
      (req : QuorumSetRequest) (s : Server) (w : W) (responses : List NodeResponse)
      → (quorum_write env place req s w).0.status ≡ ok
      → (answer_of req.key (length (place.replicas req.key)) responses).status ≡ ok
      → (acks : ℕ) × (reported "acks" (quorum_write env place req s w).0 ≡ some acks)
        × (length (place.replicas req.key) + 1 < acks + length responses)
  unfolding quorum_write
  quorum_write-meets req s w responses h k =
      let (many, p) =
        acks_response-majority _ _ (quorum_needed (length (place.replicas req.key))) _ h in
      let read = answer_of-majority req.key (length (place.replicas req.key)) responses k in
      (_, p, majorities_meet (length (place.replicas req.key)) _ (length responses) many read)

  -- A quorum write of a key whose local entry has expired, is not swept yet and has a version
  -- from 1 on leaves the store as it is: the new version is 1, which is not newer than that of
  -- the entry.
  pub quorum_write-lost :
      (req : QuorumSetRequest) (s : Server) (w : W) (item : Entry)
      → lookup req.key s.store.entries ≡ some item
      → is_expired item.expires_at (env.now (env.now w).1).0 ≡ true
      → sle 1 item.version ≡ true
      → (quorum_write env place req s w).1.store ≡ s.store
  unfolding quorum_write version_of has_version
  quorum_write-lost req s w item p dead old =
      let missing : get_with_version req.key (env.now (env.now w).1).0 s.store ≡ none =
        get_with_version-some req.key (env.now (env.now w).1).0 s.store item p ∙ rw dead refl in
      rw missing (ap (λ x. x.1) (set_version-stale req.key req.value _ 1 s.store (rw p old)))
