-- ===== src/Parts/Open.antt =====
-- What `openParts` of backfill/parts.go takes over from the disk.
use epochfill.Common.{
  ℕ, ◌≡◌, refl, inl, inr, Bool, true, Bool-cases, Option, none, some, List, length, nat_eq,
  nat_equality, arith,
}
use epochfill.Parts.{PartsFile, opened, new_parts, open_parts}
use epochfill.Parts.Claims.{claims, length-replicate, claims-replicate}
use epochfill.Parts.Steps.{reading}

module _ (n : ℕ) where
  -- What `openParts` takes over from the disk.
  pub record TakenOver (o : Option (List ℕ)) (p : PartsFile) (side : Option (List ℕ)) : Type 0 where
    pub size : length p.state ≡ n
    pub from :
        (i : ℕ)
        → claims p.state i ≡ true
        → (l : List ℕ) × (o ≡ some l) × (length l ≡ n) × (claims l i ≡ true)
    pub above : (l : List ℕ) (i : ℕ) → side ≡ some l → claims l i ≡ true → claims p.state i ≡ true
    pub kept : (l : List ℕ) → side ≡ some l → o ≡ some l

  new_parts-TakenOver : (o : Option (List ℕ)) → TakenOver o (new_parts n) none
  new_parts-TakenOver o = record {
    size = length-replicate n;
    from = λ i claim. cc (claims-replicate n i, claim);
    above = λ l i on claim. cc;
    kept = λ l on. cc;
  }

  taken :
      (o : Option (List ℕ)) (p : PartsFile) (side : Option (List ℕ)) (p' : PartsFile)
      (side' : Option (List ℕ))
      → opened p side ≡ opened p' side'
      → TakenOver o p side
      → TakenOver o p' side'
  taken o p side p' side' h t = rw (← same, ← same_side) t
    where
      same : p ≡ p'
      same = cc

      same_side : side ≡ side'
      same_side = cc

  pub open_parts_lem :
      (remove_fails : Bool) (o : Option (List ℕ)) (p : PartsFile) (side : Option (List ℕ))
      → open_parts remove_fails (reading o) n ≡ opened p side
      → TakenOver o p side
  unfolding open_parts
  open_parts_lem remove_fails none p side h =
      taken none (new_parts n) none p side h (new_parts-TakenOver none)
  open_parts_lem remove_fails (some l) p side h = elim (Bool-cases (nat_eq (length l) n)) [
    | inl fits ↦
        taken (some l) (record { state = l; dirty = 0 }) (some l) p side (rw fits at h)
          (record {
            size = ground arith;
            from = λ i claim. (l, refl, ground arith, claim);
            above = λ k i on claim. cc (on, claim);
            kept = λ k on. on;
          })
    | inr stale ↦ elim (Bool-cases remove_fails) [
      | inl fails ↦ cc (rw (stale, fails) at h)
      | inr removed ↦
          taken (some l) (new_parts n) none p side (rw (stale, removed) at h)
            (new_parts-TakenOver (some l))
    ]
  ]
