-- ===== src/Block/Membership.antt =====
-- What the maps of `parseRegion` hold after the walk over a region.
use epochfill.Common.{
  ℕ, ◌≡◌, refl, ap, ◌⊎◌, inl, inr, Bool, false, Option, none, some, List, [], ◌∷◌, length, get_or,
  ltb, nat_eq, All, elem, if◌then◌else◌, Eq, ◌==◌, ◌>>=◌, arith,
}
use epochfill.Go.Map.{lookup, lookup-insert}
use epochfill.Car.{Section, done, Visit, next, stop}
use epochfill.Car.Encode.{visit_all}
use epochfill.Block.Ipld.{Ipld}
use epochfill.Block.Region.{
  Region, DecodeError, visit_node, kind_transaction, kind_entry, kind_block, kind_rewards,
}

-- The node bytes of a kind: two bytes at least, and the kind in the second.
abbrev pub has_kind : ℕ → List ℕ → Bool
has_kind kind bytes = if ltb (length bytes) 2 then false else nat_eq (get_or bytes 1 0) kind

abbrev pub prefer {ℓ} : {A : Type ℓ} → Option A → Option A → Option A
prefer none d = d
prefer (some a) d = some a

pub prefer-none {ℓ} : {A : Type ℓ} (o : Option A) → prefer o none ≡ o
prefer-none none = refl
prefer-none (some a) = refl

module _ (ipld : Ipld) ⦃e : Eq ipld.Cid⦄ where
  open ipld use {
    Cid, TransactionNode, EntryNode, BlockNode, decode_transaction, decode_entry, decode_block,
    entry_links, transaction_links, cid_from_bytes,
  }

  abbrev pub transaction_in : List ℕ → Option TransactionNode
  transaction_in bytes = if has_kind kind_transaction bytes then decode_transaction bytes else none

  abbrev pub entry_in : List ℕ → Option EntryNode
  entry_in bytes = if has_kind kind_entry bytes then decode_entry bytes else none

  abbrev pub block_in : List ℕ → Option BlockNode
  block_in bytes = if has_kind kind_block bytes then decode_block bytes else none

  abbrev pub cids : List (Section Cid) → List Cid
  cids [] = []
  cids (x ∷ r) = x.cid ∷ cids r

  pub entries-visit_node :
      (want c : Cid) (r r' : Region ipld) (x : Section Cid)
      → visit_node ipld want r x ≡ next r'
      → lookup c r'.entries ≡ (
          if x.cid == c then prefer (entry_in x.bytes) (lookup c r.entries) else lookup c r.entries)
  unfolding visit_node
  entries-visit_node want c r r' x h = grind (arith, lookup-insert)

  pub txs-visit_node :
      (want c : Cid) (r r' : Region ipld) (x : Section Cid)
      → visit_node ipld want r x ≡ next r'
      → lookup c r'.txs
        ≡ (if x.cid == c then prefer (transaction_in x.bytes) (lookup c r.txs) else lookup c r.txs)
  unfolding visit_node
  txs-visit_node want c r r' x h = grind (arith, lookup-insert)

  -- A rewards node is kept as it is.
  abbrev pub rewards_in : List ℕ → Option (List ℕ)
  rewards_in bytes = if has_kind kind_rewards bytes then some bytes else none

  pub rewards-visit_node :
      (want c : Cid) (r r' : Region ipld) (x : Section Cid)
      → visit_node ipld want r x ≡ next r'
      → lookup c r'.rewards_raw ≡ (
          if x.cid == c
          then prefer (rewards_in x.bytes) (lookup c r.rewards_raw)
          else lookup c r.rewards_raw)
  unfolding visit_node
  rewards-visit_node want c r r' x h = grind (arith, lookup-insert)

  pub block-visit_node :
      (want : Cid) (r r' : Region ipld) (x : Section Cid)
      → visit_node ipld want r x ≡ next r'
      → r'.block ≡ (if x.cid == want then prefer (block_in x.bytes) r.block else r.block)
  unfolding visit_node
  block-visit_node want r r' x h = ground arith

  -- The archive is content addressed: a CID names the same bytes wherever it is met.
  abbrev pub Stored : (Cid → Option (List ℕ)) → List (Section Cid) → Type 0
  Stored store = All (λ x. store x.cid ≡ some x.bytes)

  -- The node that a link names, if the region holds it and it decodes as the kind that `f` reads.
  abbrev pub found {ℓ} :
      {V : Type ℓ}
      → (List ℕ → Option V)
      → (Cid → Option (List ℕ))
      → List (Section Cid)
      → Cid
      → Option V
  found f store xs c = if elem c (cids xs) then store c >>= f else none

  Visit-cases :
      (v : Visit DecodeError (Region ipld))
      → ((r : Region ipld) × (v ≡ next r)) ⊎ ((err : DecodeError) × (v ≡ stop err))
  Visit-cases (next r) = inl (r, refl)
  Visit-cases (stop err) = inr (err, refl)

  pub visit_all-cons :
      (want : Cid) (x : Section Cid) (xs : List (Section Cid)) (r r' : Region ipld)
      → visit_all (visit_node ipld want) (x ∷ xs) r ≡ done r'
      → (mid : Region ipld) × (visit_node ipld want r x ≡ next mid)
        × (visit_all (visit_node ipld want) xs mid ≡ done r')
  visit_all-cons want x xs r r' h = elim (Visit-cases (visit_node ipld want r x)) [
    | inl (mid, e₁) ↦ (mid, e₁, rw (e₁, visit_all) at h)
    | inr (err, e₁) ↦ cc (rw (e₁, visit_all) at h)
  ]

  module _ {V : Type 0} (want c : Cid) (view : Region ipld → Option V) (f : List ℕ → Option V)
      (step : (r r' : Region ipld) (x : Section Cid)
        → visit_node ipld want r x ≡ next r'
        → view r' ≡ (if x.cid == c then prefer (f x.bytes) (view r) else view r)) where
    -- What the map holds under `c` after the walk.
    pub view-visit_all :
        (store : Cid → Option (List ℕ)) (xs : List (Section Cid)) (r r' : Region ipld)
        → Stored store xs
        → visit_all (visit_node ipld want) xs r ≡ done r'
        → view r' ≡ prefer (found f store xs c) (view r)
    view-visit_all store [] r r' stored h = ground arith
    view-visit_all store (x ∷ xs) r r' stored h =
        let (mid, first, others) = visit_all-cons want x xs r r' h in
        ground (
          arith,
          step r mid x first,
          view-visit_all store xs mid r' stored.1 others,
          e.beq_iff x.cid c,
          stored.0,
        )

  visit_node-stop :
      (want : Cid) (r : Region ipld) (x : Section Cid) (err : DecodeError)
      → visit_node ipld want r x ≡ stop err
      → (x.cid ≡ want) × (decode_block x.bytes ≡ none)
  unfolding visit_node
  visit_node-stop want r x err h = ground (arith, e.beq_iff x.cid want)

  -- The walk over a region ends well if the wanted block's bytes decode.
  pub visit_all-done :
      (store : Cid → Option (List ℕ)) (want : Cid) (bytes : List ℕ) (b : BlockNode)
      (xs : List (Section Cid)) (r : Region ipld)
      → Stored store xs
      → store want ≡ some bytes
      → decode_block bytes ≡ some b
      → (r' : Region ipld) × (visit_all (visit_node ipld want) xs r ≡ done r')
  visit_all-done store want bytes b [] r stored here decodes = (r, refl)
  visit_all-done store want bytes b (x ∷ xs) r stored here decodes =
      elim (Visit-cases (visit_node ipld want r x)) [
        | inl (mid, e₁) ↦
            let (r', done') = visit_all-done store want bytes b xs mid stored.1 here decodes in
            (r', rw (e₁, visit_all) done')
        | inr (err, e₁) ↦
            let (same, bad) = visit_node-stop want r x err e₁ in
            absurd (cc (stored.0, here, decodes, bad, ap store same))
      ]

  -- So does a walk over a region that does not hold it.
  pub visit_all-absent :
      (want : Cid) (xs : List (Section Cid)) (r : Region ipld)
      → elem want (cids xs) ≡ false
      → (r' : Region ipld) × (visit_all (visit_node ipld want) xs r ≡ done r')
  visit_all-absent want [] r absent = (r, refl)
  visit_all-absent want (x ∷ xs) r absent = elim (Visit-cases (visit_node ipld want r x)) [
    | inl (mid, e₁) ↦
        let (r', done') = visit_all-absent want xs mid (ground arith) in
        (r', rw (e₁, visit_all) done')
    | inr (err, e₁) ↦
        absurd (ground (arith, visit_node-stop want r x err e₁, e.beq_iff x.cid want, absent))
  ]
