-- ===== src/Signatures.antt =====
-- backfill/sigs.go, and `distinctSlots` of backfill/run.go. The RPC node is a parameter: a page of
-- `getSignaturesForAddress` before a cursor, and the signatures of a slot's block. `none` is an
-- error. A signature is any type; the zero cursor is `none`.
pub mod Paging
pub mod Distinct
use epochfill.Common.{
  ℕ, zero, suc, ◌+◌, ◌-◌, ◌*◌, Bool, true, false, ◌||◌, ◌%◌, ◌≡◌, refl, Option, none, some, List,
  [], ◌∷◌, ◌++◌, ltb, elem, nat_equality, if◌then◌else◌,
}
use epochfill.Go.Word.{add64, sub64, u64_mod}

abbrev pub slots_per_epoch : ℕ
slots_per_epoch = 432000

unfoldable pub epoch_bounds : ℕ → ℕ × ℕ
epoch_bounds epoch =
    let first = epoch * slots_per_epoch % u64_mod in (first, sub64 (add64 first slots_per_epoch) 1)

pub record SigRef (Sig : Type 0) : Type 0 where
  pub sig : Sig
  pub slot : ℕ

-- What the paging loop returns; `out_of_fuel` is no Go value.
pub data Discovered (Sig : Type 0) : Type 0 where
  discovered : List (SigRef Sig) → Discovered Sig
  page_failed : Discovered Sig
  out_of_fuel : Discovered Sig

module _ {Sig : Type 0} where
  -- The switch on one page: what is in the epoch, in order, and whether a slot before it was met.
  unfoldable pub in_epoch : ℕ → ℕ → List (SigRef Sig) → List (SigRef Sig)
  in_epoch first last [] = []
  in_epoch first last (s ∷ r) =
      if ltb last s.slot
      then in_epoch first last r
      else if ltb s.slot first
      then in_epoch first last r
      else s ∷ in_epoch first last r

  unfoldable pub reached_before : ℕ → ℕ → List (SigRef Sig) → Bool
  reached_before first last [] = false
  reached_before first last (s ∷ r) =
      if ltb last s.slot
      then reached_before first last r
      else (ltb s.slot first || reached_before first last r)

  -- `sigs[len(sigs)-1].Signature` of a page that starts with `s`.
  abbrev pub last_sig : SigRef Sig → List (SigRef Sig) → Sig
  last_sig s [] = s.sig
  last_sig s (t ∷ r) = last_sig t r

  -- The slots of the references, each once, in the order that they are met; `seen` as a list.
  abbrev pub distinct_loop : List (SigRef Sig) → List ℕ → List ℕ
  distinct_loop [] seen = []
  distinct_loop (s ∷ r) seen =
      if elem s.slot seen then distinct_loop r seen else s.slot ∷ distinct_loop r (s.slot ∷ seen)

  unfoldable pub distinct_slots : List (SigRef Sig) → List ℕ
  distinct_slots refs = distinct_loop refs []

  -- `for slot := lastSlot + 1; slot <= lastSlot+64; slot++`, with the rounds that are left.
  unfoldable pub seek_loop : (ℕ → Option (List Sig)) → ℕ → ℕ → Option Sig
  seek_loop block zero slot = none
  seek_loop block (suc rounds) slot =
      let rest = seek_loop block rounds (add64 slot 1) in
      elim (block slot) [ none ↦ rest | some [] ↦ rest | some (sig ∷ _) ↦ some sig ]

  unfoldable pub seek_marker : (ℕ → Option (List Sig)) → ℕ → Option Sig
  seek_marker block last = seek_loop block 64 (add64 last 1)

  module _ (page : Option Sig → Option (List (SigRef Sig))) (first last : ℕ) where
    -- The rest of the loop's body, after the request.
    abbrev pub after_page :
        (Option Sig → List (SigRef Sig) → Discovered Sig)
        → List (SigRef Sig)
        → Option (List (SigRef Sig))
        → Discovered Sig
    after_page continue out none = page_failed
    after_page continue out (some []) = discovered out
    after_page continue out (some (s ∷ r)) =
        if reached_before first last (s ∷ r)
        then discovered (out ++ in_epoch first last (s ∷ r))
        else continue (some (last_sig s r)) (out ++ in_epoch first last (s ∷ r))

    pub page_loop : ℕ → Option Sig → List (SigRef Sig) → Discovered Sig
    page_loop zero before out = out_of_fuel
    page_loop (suc fuel) before out = after_page (page_loop fuel) out (page before)

    pub page_loop_step :
        (fuel : ℕ) (before : Option Sig) (out : List (SigRef Sig))
        → page_loop (suc fuel) before out ≡ after_page (page_loop fuel) out (page before)
    unfolding page_loop
    page_loop_step fuel before out = refl

  -- `DiscoverSignatures`, on fuel for the number of requests.
  unfoldable pub discover_signatures :
      (ℕ → Option (List Sig)) → (Option Sig → Option (List (SigRef Sig))) → ℕ → ℕ → Discovered Sig
  unfolding epoch_bounds seek_marker page_loop
  discover_signatures block page epoch fuel =
      let (first, last) = epoch_bounds epoch in
      page_loop page first last fuel (seek_marker block last) []
