-- ===== src/Extract/Laws.antt =====
-- The rows of `BuildLanding`: who gets one, and what a bare tip leg is.
use epochfill.Common.{
  ℕ, ◌≡◌, ◌∙◌, refl, ◌⊎◌, inl, inr, Bool, true, false, not, ◌&&◌, Bool-cases, Option-cases, Option,
  none, some, List, [], ◌∷◌, nat_eq, all_of, All, get_elem?, arith,
}
use epochfill.Go.Text.{GoString, is_space}
use epochfill.Landing.{Landing}
use epochfill.Landing.Tips.{is_overhead, is_bare_tip_leg}
use epochfill.Landing.Tips.Bare.{IsPlain, is_bare_tip_leg-join}
use epochfill.Extract.Chain.{Chain}
use epochfill.Extract.Programs.{sorted_programs, program_set, resolve_keys, contains_key}
use epochfill.Extract.ProgramLaws.{
  programs_at, inner_at, invoked, all_of-append, sorted_programs_lem,
}
use epochfill.Extract.Balance.{tip_paid}
use epochfill.Extract.Build.{
  built, apply_position, fill_landing, build_landing, is_split, with_tx, with_signature,
}

-- No comma and no space byte, as a test.
abbrev pub is_plain : GoString → Bool
is_plain [] = true
is_plain (c ∷ s) = not (nat_eq c b',') && (not (is_space c) && is_plain s)

is_plain-IsPlain : (s : GoString) → is_plain s ≡ true → IsPlain s
is_plain-IsPlain [] h = (tt, tt)
is_plain-IsPlain (c ∷ s) h =
    let rest = is_plain-IsPlain s (ground arith) in ((ground arith, rest.0), (ground arith, rest.1))

all_of-IsPlain : (l : List GoString) → all_of is_plain l ≡ true → All IsPlain l
all_of-IsPlain [] h = tt
all_of-IsPlain (s ∷ l) h = (is_plain-IsPlain s (ground arith), all_of-IsPlain l (ground arith))

module _ (chain : Chain) where
  open chain use {
    PublicKey, Tx, Node, StatusMeta, data_total, data_bytes, decode_tx, signatures, position_index,
  }

  -- What a built row was made of.
  pub record Origin (node : Node) (meta : Option StatusMeta) (wallet leader : GoString)
      (slot tx_count : ℕ) (l : Landing) : Type 0 where
    pub tx : Tx
    pub status : StatusMeta
    pub sig : GoString
    pub others : List GoString
    pub whole : is_split chain (data_total node) ≡ false
    pub decoded : decode_tx (data_bytes node) ≡ some tx
    pub signed : signatures tx ≡ sig ∷ others
    pub has_meta : meta ≡ some status
    pub member : contains_key chain (resolve_keys chain tx status) wallet ≡ true
    pub row :
        l
        ≡ apply_position
            (fill_landing chain tx status sig wallet leader slot)
            (position_index node)
            tx_count

  signed_cases :
      (l : List GoString)
      → (l ≡ []) ⊎ ((sig : GoString) × (others : List GoString) × (l ≡ sig ∷ others))
  signed_cases [] = inl refl
  signed_cases (sig ∷ others) = inr (sig, others, refl)

  with_signature-Origin :
      (node : Node) (meta : Option StatusMeta) (wallet leader : GoString) (slot tx_count : ℕ)
      (tx : Tx) (sig : GoString) (others : List GoString) (l : Landing)
      → is_split chain (data_total node) ≡ false
      → decode_tx (data_bytes node) ≡ some tx
      → signatures tx ≡ sig ∷ others
      → with_signature chain node meta wallet leader slot tx_count tx (sig ∷ others) ≡ built l
      → Origin node meta wallet leader slot tx_count l
  with_signature-Origin node none wallet leader slot tx_count tx sig others l whole decoded signed
        h =
      cc
  with_signature-Origin node (some meta) wallet leader slot tx_count tx sig others l whole decoded
        signed h =
      elim (Bool-cases (contains_key chain (resolve_keys chain tx meta) wallet)) [
        | inl member ↦ record {
          tx = tx;
          status = meta;
          sig = sig;
          others = others;
          whole = whole;
          decoded = decoded;
          signed = signed;
          has_meta = refl;
          member = member;
          row = cc (rw member at h);
        }
        | inr stranger ↦ cc (rw stranger at h)
      ]

  -- A row is built only of a transaction that is whole, decodes, is signed, has metadata, and has
  -- the wallet among its resolved keys; and it is the row of that transaction.
  pub build_landing-Origin :
      (node : Node) (meta : Option StatusMeta) (wallet leader : GoString) (slot tx_count : ℕ)
      (l : Landing)
      → build_landing chain node meta wallet leader slot tx_count ≡ built l
      → Origin node meta wallet leader slot tx_count l
  unfolding build_landing
  build_landing-Origin node meta wallet leader slot tx_count l h =
      elim (Bool-cases (is_split chain (data_total node))) [
        | inl split ↦ cc (rw split at h)
        | inr whole ↦ elim (Option-cases (decode_tx (data_bytes node))) [
          | inl bad ↦ cc (rw (whole, bad) at h)
          | inr (tx, decoded) ↦ elim (signed_cases (signatures tx)) [
            | inl unsigned ↦ cc (rw (whole, decoded, with_tx, unsigned) at h)
            | inr (sig, others, signed) ↦
                with_signature-Origin node meta wallet leader slot tx_count tx sig others l whole
                  decoded signed (rw (whole, decoded, with_tx, signed) at h)
          ]
        ]
      ]

module _ (chain : Chain)
    (plain : (k : chain.PublicKey) → is_plain (chain.key_string k) ≡ true) where
  open chain use {
    PublicKey, Tx, Node, StatusMeta, instruction_programs, inner_programs, decode_tx, data_bytes,
    position_index,
  }

  all_of-programs_at :
      (keys : List PublicKey) (idxs : List ℕ) → all_of is_plain (programs_at chain keys idxs) ≡ true
  all_of-programs_at keys [] = refl
  all_of-programs_at keys (idx ∷ r) = elim (Option-cases (get_elem? keys idx)) [
    | inl out_of_range ↦ rw (out_of_range, programs_at) (all_of-programs_at keys r)
    | inr (k, found) ↦ rw (found, programs_at) (ground (arith, plain k, all_of-programs_at keys r))
  ]

  all_of-inner_at :
      (keys : List PublicKey) (inner : List (List ℕ))
      → all_of is_plain (inner_at chain keys inner) ≡ true
  all_of-inner_at keys [] = refl
  all_of-inner_at keys (idxs ∷ r) = ground (
    arith,
    all_of-append is_plain (programs_at chain keys idxs) (inner_at chain keys r),
    all_of-programs_at keys idxs,
    all_of-inner_at keys r,
  )

  all_of-invoked :
      (tx : Tx) (meta : StatusMeta) (keys : List PublicKey)
      → all_of is_plain (invoked chain tx meta keys) ≡ true
  all_of-invoked tx meta keys =
      rw
        (
          all_of-append is_plain (programs_at chain keys (instruction_programs tx))
              (inner_at chain keys (inner_programs meta)),
          all_of-programs_at keys (instruction_programs tx),
        )
        (all_of-inner_at keys (inner_programs meta))

  tip_leg :
      (tx : Tx) (meta : StatusMeta) (keys : List PublicKey) (tip : ℕ)
      → is_bare_tip_leg (program_set chain tx meta keys) tip
        ≡ (not (nat_eq tip 0) && all_of is_overhead (invoked chain tx meta keys))
  unfolding program_set
  tip_leg tx meta keys tip =
      let (_, _, all) = sorted_programs_lem chain tx meta keys in
      is_bare_tip_leg-join (sorted_programs chain tx meta keys) tip (
        all_of-IsPlain (sorted_programs chain tx meta keys)
          (all is_plain ∙ all_of-invoked tx meta keys))
      ∙ rw (all is_overhead)

  apply_position-tip_leg :
      (l : Landing) (position : Option ℕ) (tx_count : ℕ)
      → ((apply_position l position tx_count).is_tip_leg ≡ l.is_tip_leg)
        × ((apply_position l position tx_count).tip_lamports ≡ l.tip_lamports)
  unfolding apply_position
  apply_position-tip_leg l none tx_count = (refl, refl)
  apply_position-tip_leg l (some idx) tx_count = ground arith

  fill_landing-tip_leg :
      (tx : Tx) (meta : StatusMeta) (sig wallet leader : GoString) (slot : ℕ)
      → (fill_landing chain tx meta sig wallet leader slot).is_tip_leg ≡ (
          not (nat_eq (fill_landing chain tx meta sig wallet leader slot).tip_lamports 0)
          && all_of is_overhead (invoked chain tx meta (resolve_keys chain tx meta)))
  unfolding fill_landing
  fill_landing-tip_leg tx meta sig wallet leader slot =
      tip_leg tx meta (resolve_keys chain tx meta)
        (tip_paid chain (resolve_keys chain tx meta) meta).0

  -- For a key printer whose texts hold no comma and no space byte: a row that is built is a bare
  -- tip leg exactly if its tip is not 0 and every program that the decoded transaction invokes,
  -- at the top level or inside, is the system program, the compute budget program or the empty
  -- text.
  pub build_landing_tip_leg :
      (node : Node) (meta : Option StatusMeta) (wallet leader : GoString) (slot tx_count : ℕ)
      (l : Landing)
      → build_landing chain node meta wallet leader slot tx_count ≡ built l
      → (tx : Tx) × (status : StatusMeta) × (decode_tx (data_bytes node) ≡ some tx)
        × (meta ≡ some status)
        × (l.is_tip_leg ≡ (
            not (nat_eq l.tip_lamports 0)
            && all_of is_overhead (invoked chain tx status (resolve_keys chain tx status))))
  build_landing_tip_leg node meta wallet leader slot tx_count l h =
      let o = build_landing-Origin chain node meta wallet leader slot tx_count l h in
      let same =
        apply_position-tip_leg (fill_landing chain o.tx o.status o.sig wallet leader slot)
          (position_index node) tx_count in
      (
        o.tx,
        o.status,
        o.decoded,
        o.has_meta,
        rw (o.row, same.0, same.1) (fill_landing-tip_leg o.tx o.status o.sig wallet leader slot),
      )
