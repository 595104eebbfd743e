-- ===== src/Store/Path.antt =====
-- `DBPath` of backfill/store.go, and where `Run` of backfill/run.go puts the database.
use epochfill.Common.{
  ℕ, ◌≡◌, ap, sym, ◌∙◌, List, [], ◌∷◌, ◌++◌, length, take, drop, ltb, length-append,
  take_all-append, drop_all-append, ◌==◌, text_equality, if◌then◌else◌, arith,
}
use epochfill.Go.Text.{GoString, bytes_of}
use epochfill.Go.Word.{IsU64}
use epochfill.Go.Decimal.{format_uint, format_uint-inj}

abbrev pub short_key : GoString → GoString
short_key wallet = if ltb 8 (length wallet) then take 8 wallet else wallet

unfoldable pub db_path : GoString → ℕ → GoString
db_path wallet epoch = short_key wallet ++ ((b'.' ∷ format_uint epoch) ++ bytes_of ".db")

-- The flag, or the default.
abbrev pub out_path : GoString → GoString → ℕ → GoString
out_path out wallet epoch = if out == [] then db_path wallet epoch else out

cancel_left : (l m n : List ℕ) → l ++ m ≡ l ++ n → m ≡ n
cancel_left l m n e = sym (drop_all-append l m) ∙ (ap (drop (length l)) e ∙ drop_all-append l n)

cancel_right : (l m n : List ℕ) → l ++ n ≡ m ++ n → l ≡ m
cancel_right l m n e =
    sym (take_all-append l n)
    ∙ (ap (take (length l)) e ∙ (ap (λ k. take k (m ++ n)) same ∙ take_all-append m n))
  where
    same : length l ≡ length m
    same = (let h = ap length e in omega (arith, length-append l n, length-append m n))

-- Two epochs of one wallet have different databases.
pub db_path-inj :
    (wallet : GoString) (m n : ℕ) → IsU64 m → IsU64 n → db_path wallet m ≡ db_path wallet n → m ≡ n
unfolding db_path
db_path-inj wallet m n hm hn e =
    let tail =
      cancel_left (short_key wallet) ((b'.' ∷ format_uint m) ++ bytes_of ".db")
        ((b'.' ∷ format_uint n) ++ bytes_of ".db") e in
    let dotted = cancel_right (b'.' ∷ format_uint m) (b'.' ∷ format_uint n) (bytes_of ".db") tail in
    format_uint-inj m n hm hn (cancel_left (b'.' ∷ []) (format_uint m) (format_uint n) dotted)
