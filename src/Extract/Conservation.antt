-- ===== src/Extract/Conservation.antt =====
-- `wsolProfit` conserves value: it is the wallet's balances after, less those before.
use epochfill.Common.{
  ℕ, Bool, ◌∙◌, ◌&&◌, text_eq, ◌+◌, ◌%◌, ◌≡◌, refl, true, false, Bool-cases, inl, inr, none, List,
  [], ◌∷◌, elem, if◌then◌else◌, arith, nat_equality,
}
use epochfill.Go.Map.{Map, lookup, insert, delete, lookup-insert}
use epochfill.Go.Text.{GoString}
use epochfill.Go.Decimal.{parse_int-IsU64}
use epochfill.Go.Word.{u64_mod, IsU64, add64, sub64}
use epochfill.Extract.Chain.{Chain}
use epochfill.Extract.Wsol.{
  wsol_mint, lamports, or_zero, is_ours, pre_loop, post_loop, gone_loop, wsol_profit,
}

-- The sum of a map's values.
abbrev value : Map ℕ ℕ → ℕ
value [] = 0
value ((_, v) ∷ m) = v + value m

abbrev InRange : Map ℕ ℕ → Type 0
InRange [] = Unit
InRange ((_, v) ∷ m) = IsU64 v × InRange m

lamports-IsU64 : (s : GoString) → IsU64 (lamports s)
unfolding lamports
lamports-IsU64 s = parse_int-IsU64 s

value-delete : (k : ℕ) (m : Map ℕ ℕ) → value (delete k m) + or_zero (lookup k m) ≡ value m
value-delete k [] = omega arith
value-delete k ((j, v) ∷ m) = ground (arith, value-delete k m)

value-insert : (k v : ℕ) (m : Map ℕ ℕ) → lookup k m ≡ none → value (insert k v m) ≡ value m + v
value-insert k v [] h = omega arith
value-insert k v ((j, w) ∷ m) h = ground (arith, value-insert k v m)

delete-InRange : (k : ℕ) (m : Map ℕ ℕ) → InRange m → InRange (delete k m)
delete-InRange k [] h = tt
delete-InRange k ((j, v) ∷ m) h = ground (arith, delete-InRange k m h.1)

insert-InRange : (k v : ℕ) (m : Map ℕ ℕ) → IsU64 v → InRange m → InRange (insert k v m)
insert-InRange k v [] hv h = (hv, tt)
insert-InRange k v ((j, w) ∷ m) hv h = ground (arith, insert-InRange k v m hv h.1)

lookup-InRange : (k : ℕ) (m : Map ℕ ℕ) → InRange m → IsU64 (or_zero (lookup k m))
lookup-InRange k [] h = omega arith
lookup-InRange k ((j, v) ∷ m) h = ground (arith, lookup-InRange k m h.1)

gone_loop_lem :
    (m : Map ℕ ℕ) (delta : ℕ)
    → InRange m
    → (gone_loop m delta + value m) % u64_mod ≡ delta % u64_mod
unfolding gone_loop sub64
gone_loop_lem [] delta h = omega arith
gone_loop_lem ((k, v) ∷ m) delta h = omega (arith, gone_loop_lem m (sub64 delta v) h.1)

module _ (chain : Chain) (wallet : GoString) where
  open chain use {
    TokenBalance, StatusMeta, account_index, amount, mint, owner, pre_token_balances,
    post_token_balances,
  }

  -- A balance of wrapped SOL that the wallet owns.
  abbrev of_wallet : TokenBalance → Bool
  of_wallet b = text_eq (mint b) wsol_mint && text_eq (owner b) wallet

  is_ours_lem : (b : TokenBalance) → is_ours chain wallet b ≡ of_wallet b
  unfolding is_ours
  is_ours_lem b = refl

  -- The wallet's wrapped SOL in a list of balances.
  abbrev pub ours_sum : List TokenBalance → ℕ
  ours_sum [] = 0
  ours_sum (b ∷ r) = (if of_wallet b then lamports (amount b) else 0) + ours_sum r

  abbrev pub our_indexes : List TokenBalance → List ℕ
  our_indexes [] = []
  our_indexes (b ∷ r) = if of_wallet b then account_index b ∷ our_indexes r else our_indexes r

  -- No account of the wallet is listed twice.
  abbrev pub OneEach : List ℕ → Type 0
  OneEach [] = Unit
  OneEach (i ∷ r) = (elem i r ≡ false) × OneEach r

  pre_loop-InRange :
      (l : List TokenBalance) (m : Map ℕ ℕ) → InRange m → InRange (pre_loop chain wallet l m)
  unfolding pre_loop
  pre_loop-InRange [] m h = h
  pre_loop-InRange (b ∷ r) m h = elim (Bool-cases (is_ours chain wallet b)) [
    | inl ours ↦ rw ours (
        pre_loop-InRange r (insert (account_index b) (lamports (amount b)) m)
          (insert-InRange (account_index b) (lamports (amount b)) m (lamports-IsU64 (amount b)) h))
    | inr others ↦ rw others (pre_loop-InRange r m h)
  ]

  record Balanced (l : List TokenBalance) (delta : ℕ) (m : Map ℕ ℕ) (out : ℕ × Map ℕ ℕ)
      : Type 0 where
    balance : (out.0 + value m) % u64_mod ≡ (delta + value out.1 + ours_sum l) % u64_mod
    range : InRange out.1

  -- One balance of the wallet, added to what the rest of the loop keeps.
  balance_step :
      (delta v amt total left out : ℕ) (sum : ℕ)
      → IsU64 v
      → IsU64 amt
      → left + v ≡ total
      → (out + left) % u64_mod ≡ (add64 delta (sub64 amt v) + sum) % u64_mod
      → (out + total) % u64_mod ≡ (delta + amt + sum) % u64_mod
  unfolding add64 sub64
  balance_step delta v amt total left out sum hv ha split h = omega arith

  post_loop_ours :
      (b : TokenBalance) (r : List TokenBalance) (delta : ℕ) (m : Map ℕ ℕ)
      → is_ours chain wallet b ≡ true
      → post_loop chain wallet (b ∷ r) delta m
        ≡ post_loop chain wallet r
            (add64 delta (sub64 (lamports (amount b)) (or_zero (lookup (account_index b) m))))
            (delete (account_index b) m)
  unfolding post_loop
  post_loop_ours b r delta m h = rw h

  post_loop_others :
      (b : TokenBalance) (r : List TokenBalance) (delta : ℕ) (m : Map ℕ ℕ)
      → is_ours chain wallet b ≡ false
      → post_loop chain wallet (b ∷ r) delta m ≡ post_loop chain wallet r delta m
  unfolding post_loop
  post_loop_others b r delta m h = rw h

  post_loop_lem :
      (l : List TokenBalance) (delta : ℕ) (m : Map ℕ ℕ)
      → InRange m
      → Balanced l delta m (post_loop chain wallet l delta m)
  post_loop_lem [] delta m h = unfold post_loop in record { balance = omega arith; range = h }
  post_loop_lem (b ∷ r) delta m h = elim (Bool-cases (of_wallet b)) [
    | inl ours ↦
        let v = or_zero (lookup (account_index b) m) in
        let amt = lamports (amount b) in
        let rest =
          post_loop_lem r (add64 delta (sub64 amt v)) (delete (account_index b) m)
            (delete-InRange (account_index b) m h) in
        let out =
          post_loop chain wallet r (add64 delta (sub64 amt v)) (delete (account_index b) m) in
        rw (post_loop_ours b r delta m (is_ours_lem b ∙ ours)) (record {
          balance = rw ours (
              omega (
                arith,
                balance_step delta v amt (value m) (value (delete (account_index b) m)) out.0
                    (value out.1 + ours_sum r) (lookup-InRange (account_index b) m h)
                    (lamports-IsU64 (amount b)) (value-delete (account_index b) m)
                    (omega (arith, rest.balance)),
              ));
          range = rest.range;
        })
    | inr others ↦
        let rest = post_loop_lem r delta m h in
        rw (post_loop_others b r delta m (is_ours_lem b ∙ others))
          (record { balance = rw others (omega (arith, rest.balance)); range = rest.range })
  ]

  -- The accounts that are still to come are not in the map.
  abbrev Unseen : List ℕ → Map ℕ ℕ → Type 0
  Unseen [] m = Unit
  Unseen (i ∷ r) m = (lookup i m ≡ none) × Unseen r m

  Unseen-insert :
      (k v : ℕ) (l : List ℕ) (m : Map ℕ ℕ) → elem k l ≡ false → Unseen l m → Unseen l (insert k v m)
  Unseen-insert k v [] m new h = tt
  Unseen-insert k v (i ∷ l) m new h =
      (ground (arith, lookup-insert k i v m), Unseen-insert k v l m (ground arith) h.1)

  pre_loop_lem :
      (l : List TokenBalance) (m : Map ℕ ℕ)
      → OneEach (our_indexes l)
      → Unseen (our_indexes l) m
      → value (pre_loop chain wallet l m) ≡ value m + ours_sum l
  unfolding pre_loop
  pre_loop_lem [] m one unseen = omega arith
  pre_loop_lem (b ∷ r) m one unseen = elim (Bool-cases (of_wallet b)) [
    | inl ours ↦
        let i = account_index b in
        let v = lamports (amount b) in
        let (alone, others) = rw ours at one in
        let (absent, later) = rw ours at unseen in
        rw (is_ours_lem b, ours)
          (omega (
            arith,
            pre_loop_lem r (insert i v m) others (Unseen-insert i v (our_indexes r) m alone later),
            value-insert i v m absent,
          ))
    | inr others ↦
        rw (is_ours_lem b, others)
          (omega (arith, pre_loop_lem r m (rw others at one) (rw others at unseen)))
  ]

  Unseen-nil : (l : List ℕ) → Unseen l []
  Unseen-nil [] = tt
  Unseen-nil (i ∷ l) = (refl, Unseen-nil l)

  -- For metadata that lists no token account of the wallet twice before the transaction: the
  -- profit is the wallet's wrapped SOL after it, less that before it, as 64-bit arithmetic. It
  -- counts accounts that were opened or closed, and no account of another owner or mint.
  pub wsol_profit_conserves :
      (meta : StatusMeta)
      → OneEach (our_indexes (pre_token_balances meta))
      → (wsol_profit chain meta wallet + ours_sum (pre_token_balances meta)) % u64_mod
        ≡ ours_sum (post_token_balances meta) % u64_mod
  unfolding wsol_profit
  wsol_profit_conserves meta one =
      let pre = pre_loop chain wallet (pre_token_balances meta) [] in
      let after =
        post_loop_lem (post_token_balances meta) 0 pre
          (pre_loop-InRange (pre_token_balances meta) [] tt) in
      let out = post_loop chain wallet (post_token_balances meta) 0 pre in
      omega (
        arith,
        gone_loop_lem out.1 out.0 after.range,
        after.balance,
        pre_loop_lem (pre_token_balances meta) [] one
            (Unseen-nil (our_indexes (pre_token_balances meta))),
      )
