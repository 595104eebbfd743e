-- ===== src/Extract/TipLaws.antt =====
-- What `tipPaid` returns, by what the tip accounts among the keys have gained.
use epochfill.Common.{◌%◌, ◌≡◌, ◌∙◌, refl, ap, List, [], ◌∷◌, elem, text_equality, arith}
use epochfill.Go.Text.{GoString, sort_strings, join}
use epochfill.Go.Text.Sort.{Ascends, sort_strings-Ascends, elem-sort_strings}
use epochfill.Go.Word.{u64_mod}
use epochfill.Landing.Tips.{tip_accounts}
use epochfill.Extract.Chain.{Chain}
use epochfill.Extract.Balance.{tip_loop, tip_paid}
use epochfill.Extract.TipGains.{gains, pays, gains_from-drop, pays_from-drop}
use epochfill.Extract.TipLoop.{gains_from, tip_loop_lem}

module _ (chain : Chain) where
  open chain use {PublicKey, StatusMeta, pre_balances, post_balances}

  -- The tip is the total, modulo 2 ^ 64, of what the tip accounts among the keys have gained from
  -- the balance before to the balance after, each key with its own two balances. The lane is the
  -- comma-joined list, ascending and without repetition, of exactly the lanes of those tip accounts
  -- among the keys that have more after than before.
  pub tip_paid_lem :
      (keys : List PublicKey) (meta : StatusMeta)
      → (ls : List GoString) × ((tip_paid chain keys meta).1 ≡ join (b',' ∷ []) ls)
        × Ascends ls
        × ((lane : GoString)
            → elem lane ls
              ≡ pays chain tip_accounts lane keys (pre_balances meta) (post_balances meta))
        × ((tip_paid chain keys meta).0
            ≡ gains chain tip_accounts keys (pre_balances meta) (post_balances meta) % u64_mod)
  unfolding tip_paid
  tip_paid_lem keys meta =
      let before = pre_balances meta in
      let after = post_balances meta in
      let t = tip_loop chain tip_accounts before after keys 0 (record { tip = 0; lanes = [] }) in
      let s =
        tip_loop_lem chain tip_accounts before after keys 0 (record { tip = 0; lanes = [] }) tt in
      let total : t.tip ≡ gains_from chain tip_accounts before after keys 0 % u64_mod =
        omega (arith, s.sum (omega arith)) in
      (
        sort_strings t.lanes,
        refl,
        sort_strings-Ascends t.lanes s.distinct,
        λ lane.
            elem-sort_strings lane t.lanes
            ∙ s.lanes lane
            ∙ pays_from-drop chain tip_accounts before after lane keys 0,
        total ∙ ap (λ n. n % u64_mod) (gains_from-drop chain tip_accounts before after keys 0),
      )
