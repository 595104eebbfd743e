-- ===== src/Extract/TipGains.antt =====
-- What the tip accounts among the keys have gained, key by key with its two balances, and that this is
-- what the loop of `tipPaid` sums by index.
use epochfill.Common.{
  ℕ, zero, suc, ◌+◌, ◌-◌, ◌≡◌, refl, Bool, false, ◌||◌, ◌&&◌, Bool-cases, Option-cases, ◌⊎◌, inl,
  inr, none, some, List, [], ◌∷◌, drop, get_elem?, text_eq, ltb, if◌then◌else◌, text_equality,
  arith,
}
use epochfill.Go.Map.{Map, lookup}
use epochfill.Go.Text.{GoString}
use epochfill.Extract.Chain.{Chain}
use epochfill.Extract.Balance.{tip_at}
use epochfill.Extract.TipLoop.{gain_of, pays_lane, gains_from, pays_from}

-- A list from index `i` on, and its item there.
data DropAt (l : List ℕ) (i : ℕ) : Type 0 where
  past : drop i l ≡ [] → drop (suc i) l ≡ [] → get_elem? l i ≡ none → DropAt l i
  item : (x : ℕ) → drop i l ≡ x ∷ drop (suc i) l → get_elem? l i ≡ some x → DropAt l i

drop-cases : (l : List ℕ) (i : ℕ) → DropAt l i
drop-cases [] zero = past refl refl refl
drop-cases [] (suc i) = past refl refl refl
drop-cases (x ∷ l) zero = item x refl refl
drop-cases (x ∷ l) (suc i) = shift (drop-cases l i)
  where
    shift : DropAt l i → DropAt (x ∷ l) (suc i)
    shift (past none_left none_after none_there) = past none_left none_after none_there
    shift (item y left there) = item y left there

module _ (chain : Chain) where
  open chain use {PublicKey, StatusMeta, key_string, pre_balances, post_balances}

  -- The total of what the tip accounts among the keys have gained, each key with its balance before
  -- and after; keys past the end of a list have none.
  abbrev pub gains : Map GoString GoString → List PublicKey → List ℕ → List ℕ → ℕ
  gains accounts [] pre post = 0
  gains accounts (k ∷ r) [] post = 0
  gains accounts (k ∷ r) (b ∷ pre) [] = 0
  gains accounts (k ∷ r) (b ∷ pre) (a ∷ post) =
      (elim (lookup (key_string k) accounts) [ none ↦ 0 | some lane ↦ a - b ])
      + gains accounts r pre post

  -- Some tip account of the lane is among the keys and has more after than before.
  abbrev pub pays : Map GoString GoString → GoString → List PublicKey → List ℕ → List ℕ → Bool
  pays accounts lane [] pre post = false
  pays accounts lane (k ∷ r) [] post = false
  pays accounts lane (k ∷ r) (b ∷ pre) [] = false
  pays accounts lane (k ∷ r) (b ∷ pre) (a ∷ post) =
      ((elim (lookup (key_string k) accounts) [ none ↦ false | some l ↦ text_eq l lane ])
        && ltb b a)
      || pays accounts lane r pre post

  module _ (accounts : Map GoString GoString) where
    gains_none : (keys : List PublicKey) (pre : List ℕ) → gains accounts keys pre [] ≡ 0
    gains_none [] pre = refl
    gains_none (k ∷ r) [] = refl
    gains_none (k ∷ r) (b ∷ pre) = refl

    none_gains : (keys : List PublicKey) (post : List ℕ) → gains accounts keys [] post ≡ 0
    none_gains [] post = refl
    none_gains (k ∷ r) post = refl

    pays_none :
        (lane : GoString) (keys : List PublicKey) (pre : List ℕ)
        → pays accounts lane keys pre [] ≡ false
    pays_none lane [] pre = refl
    pays_none lane (k ∷ r) [] = refl
    pays_none lane (k ∷ r) (b ∷ pre) = refl

    none_pays :
        (lane : GoString) (keys : List PublicKey) (post : List ℕ)
        → pays accounts lane keys [] post ≡ false
    none_pays lane [] post = refl
    none_pays lane (k ∷ r) post = refl

    module _ (pre post : List ℕ) where
      tip_at-other :
          (k : PublicKey) (i : ℕ)
          → lookup (key_string k) accounts ≡ none
          → tip_at chain accounts pre post k i ≡ none
      unfolding tip_at
      tip_at-other k i other = rw (other, tip_at) refl

      tip_at-ours :
          (k : PublicKey) (i : ℕ) {lane : GoString} {before after : ℕ}
          → lookup (key_string k) accounts ≡ some lane
          → get_elem? pre i ≡ some before
          → get_elem? post i ≡ some after
          → tip_at chain accounts pre post k i
            ≡ (if ltb before after then some (after - before, lane) else none)
      unfolding tip_at
      tip_at-ours k i ours hb ha = rw (ours, hb, ha, tip_at) refl

      tip_at-without :
          (k : PublicKey) (i : ℕ)
          → (get_elem? pre i ≡ none) ⊎ (get_elem? post i ≡ none)
          → tip_at chain accounts pre post k i ≡ none
      unfolding tip_at
      tip_at-without k i h = elim (Option-cases (lookup (key_string k) accounts)) [
        | inl other ↦ rw (other, tip_at) refl
        | inr (lane, ours) ↦ elim h [
          | inl gone ↦ rw (ours, gone, tip_at) refl
          | inr gone ↦ elim (Option-cases (get_elem? pre i)) [
            | inl gone_too ↦ rw (ours, gone_too, tip_at) refl
            | inr (before, there) ↦ rw (ours, there, gone, tip_at) refl
          ]
        ]
      ]

      tip_at-gain :
          (k : PublicKey) (i before after : ℕ)
          → get_elem? pre i ≡ some before
          → get_elem? post i ≡ some after
          → gain_of (tip_at chain accounts pre post k i)
            ≡ (elim (lookup (key_string k) accounts) [ none ↦ 0 | some lane ↦ after - before ])
      tip_at-gain k i before after hb ha = elim (Option-cases (lookup (key_string k) accounts)) [
        | inl other ↦ rw (tip_at-other k i other, other) refl
        | inr (lane, ours) ↦ elim (Bool-cases (ltb before after)) [
          | inl more ↦ rw (tip_at-ours k i ours hb ha, ours, more) refl
          | inr less ↦ rw (tip_at-ours k i ours hb ha, ours, less) (ground arith)
        ]
      ]

      tip_at-pays :
          (lane : GoString) (k : PublicKey) (i before after : ℕ)
          → get_elem? pre i ≡ some before
          → get_elem? post i ≡ some after
          → pays_lane lane (tip_at chain accounts pre post k i) ≡ (
              (elim (lookup (key_string k) accounts) [ none ↦ false | some l ↦ text_eq l lane ])
              && ltb before after)
      tip_at-pays lane k i before after hb ha =
          elim (Option-cases (lookup (key_string k) accounts)) [
            | inl other ↦ rw (tip_at-other k i other, other) refl
            | inr (l, ours) ↦ elim (Bool-cases (ltb before after)) [
              | inl more ↦ rw (tip_at-ours k i ours hb ha, ours, more) (ground arith)
              | inr less ↦ rw (tip_at-ours k i ours hb ha, ours, less) (ground arith)
            ]
          ]

      pub gains_from-drop :
          (keys : List PublicKey) (i : ℕ)
          → gains_from chain accounts pre post keys i
            ≡ gains accounts keys (drop i pre) (drop i post)
      gains_from-drop [] i = refl
      gains_from-drop (k ∷ r) i = elim (drop-cases pre i) [
        | past none_left none_after none_there ↦
            rw
              (
                none_left,
                tip_at-without k i (inl none_there),
                gains_from-drop r (suc i),
                none_after,
              )
              (omega (arith, none_gains r (drop (suc i) post)))
        | item before left there ↦ elim (drop-cases post i) [
          | past none_left none_after none_there ↦
              rw
                (
                  left,
                  none_left,
                  tip_at-without k i (inr none_there),
                  gains_from-drop r (suc i),
                  none_after,
                )
                (omega (arith, gains_none r (drop (suc i) pre)))
          | item after left' there' ↦
              rw (left, left', tip_at-gain k i before after there there', gains_from-drop r (suc i))
                refl
        ]
      ]

      pub pays_from-drop :
          (lane : GoString) (keys : List PublicKey) (i : ℕ)
          → pays_from chain accounts pre post lane keys i
            ≡ pays accounts lane keys (drop i pre) (drop i post)
      pays_from-drop lane [] i = refl
      pays_from-drop lane (k ∷ r) i = elim (drop-cases pre i) [
        | past none_left none_after none_there ↦
            rw
              (
                none_left,
                tip_at-without k i (inl none_there),
                pays_from-drop lane r (suc i),
                none_after,
              )
              (none_pays lane r (drop (suc i) post))
        | item before left there ↦ elim (drop-cases post i) [
          | past none_left none_after none_there ↦
              rw
                (
                  left,
                  none_left,
                  tip_at-without k i (inr none_there),
                  pays_from-drop lane r (suc i),
                  none_after,
                )
                (pays_none lane r (drop (suc i) pre))
          | item after left' there' ↦
              rw
                (
                  left,
                  left',
                  tip_at-pays lane k i before after there there',
                  pays_from-drop lane r (suc i),
                )
                refl
        ]
      ]
