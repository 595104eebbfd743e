-- ===== src/Extract/Balance.antt =====
-- `walletDelta`, `tipPaid` and `subFloor` of backfill/extract.go.
use epochfill.Common.{
  ℕ, suc, ◌-◌, Option, none, some, List, [], ◌∷◌, ◌++◌, text_eq, elem, get_elem?, ltb,
  text_equality, if◌then◌else◌,
}
use epochfill.Go.Map.{Map, lookup}
use epochfill.Go.Text.{GoString, sort_strings, join}
use epochfill.Go.Word.{add64, sub64}
use epochfill.Landing.Tips.{tip_accounts}
use epochfill.Extract.Chain.{Chain}

-- The balances before and after at an index, if both lists have it.
abbrev pub balances_at : List ℕ → List ℕ → ℕ → Option (ℕ × ℕ)
balances_at pre post i = elim (get_elem? pre i) [
  | none ↦ none
  | some before ↦ elim (get_elem? post i) [ none ↦ none | some after ↦ some (before, after) ]
]

unfoldable pub sub_floor : ℕ → ℕ → ℕ
sub_floor a b = if ltb a b then 0 else sub64 a b

-- What the loop of `tipPaid` keeps: the sum, and the lanes in the order that they were met,
-- each once. (`seen` is the set of these lanes.)
pub record Tips : Type 0 where
  pub tip : ℕ
  pub lanes : List GoString

abbrev pub add_tip : ℕ → GoString → Tips → Tips
add_tip gain lane t = record {
  tip = add64 t.tip gain;
  lanes = if elem lane t.lanes then t.lanes else t.lanes ++ (lane ∷ []);
}

abbrev pub take_tip : Tips → Option (ℕ × GoString) → Tips
take_tip t none = t
take_tip t (some (gain, lane)) = add_tip gain lane t

module _ (chain : Chain) where
  open chain use {PublicKey, StatusMeta, key_string, pre_balances, post_balances}

  -- `for i, k := range keys`, from index `i` on.
  unfoldable pub delta_loop : GoString → List ℕ → List ℕ → List PublicKey → ℕ → ℕ
  delta_loop wallet pre post [] i = 0
  delta_loop wallet pre post (k ∷ r) i =
      let rest = delta_loop wallet pre post r (suc i) in
      if text_eq (key_string k) wallet
      then (elim (balances_at pre post i) [
        | some (before, after) ↦ sub64 after before
        | none ↦ rest
      ])
      else rest

  unfoldable pub wallet_delta : List PublicKey → StatusMeta → GoString → ℕ
  unfolding delta_loop
  wallet_delta keys meta wallet = delta_loop wallet (pre_balances meta) (post_balances meta) keys 0

  -- The gain of one key, with its lane, if it is a tip account whose balance grew.
  unfoldable pub tip_at :
      Map GoString GoString → List ℕ → List ℕ → PublicKey → ℕ → Option (ℕ × GoString)
  tip_at accounts pre post k i = elim (lookup (key_string k) accounts) [
    | none ↦ none
    | some lane ↦ elim (balances_at pre post i) [
      | none ↦ none
      | some (before, after) ↦ if ltb before after then some (after - before, lane) else none
    ]
  ]

  unfoldable pub tip_loop :
      Map GoString GoString → List ℕ → List ℕ → List PublicKey → ℕ → Tips → Tips
  tip_loop accounts pre post [] i t = t
  tip_loop accounts pre post (k ∷ r) i t =
      tip_loop accounts pre post r (suc i) (take_tip t (tip_at accounts pre post k i))

  unfoldable pub tip_paid : List PublicKey → StatusMeta → ℕ × GoString
  unfolding tip_loop tip_at
  tip_paid keys meta =
      let t =
        tip_loop tip_accounts (pre_balances meta) (post_balances meta) keys 0
          (record { tip = 0; lanes = [] }) in
      (t.tip, join (b',' ∷ []) (sort_strings t.lanes))
