-- ===== src/Extract/Programs.antt =====
-- `resolveKeys`, `containsKey` and `programSet` of backfill/extract.go.
use epochfill.Common.{
  ℕ, Bool, true, false, Option, none, some, List, [], ◌∷◌, ◌++◌, map, text_eq, elem, get_elem?,
  text_equality, if◌then◌else◌,
}
use epochfill.Go.Text.{GoString, sort_strings, join}
use epochfill.Extract.Chain.{Chain}

module _ (chain : Chain) where
  open chain use {
    PublicKey, Tx, StatusMeta, key_string, key_from_bytes, account_keys, instruction_programs,
    inner_programs, loaded_writable, loaded_readonly,
  }

  unfoldable pub resolve_keys : Tx → StatusMeta → List PublicKey
  resolve_keys tx meta =
      account_keys tx
      ++ (map key_from_bytes (loaded_writable meta) ++ map key_from_bytes (loaded_readonly meta))

  unfoldable pub contains_key : List PublicKey → GoString → Bool
  contains_key [] wallet = false
  contains_key (k ∷ r) wallet =
      if text_eq (key_string k) wallet then true else contains_key r wallet

  -- The closure `add`, once the key is looked up; `seen` as the list of its keys.
  abbrev pub add_key : List GoString → Option PublicKey → List GoString
  add_key seen none = seen
  add_key seen (some k) = if elem (key_string k) seen then seen else key_string k ∷ seen

  unfoldable pub add_programs : List PublicKey → List ℕ → List GoString → List GoString
  add_programs keys [] seen = seen
  add_programs keys (idx ∷ r) seen = add_programs keys r (add_key seen (get_elem? keys idx))

  unfoldable pub add_inner : List PublicKey → List (List ℕ) → List GoString → List GoString
  add_inner keys [] seen = seen
  add_inner keys (inner ∷ r) seen = add_inner keys r (add_programs keys inner seen)

  -- The set before it is joined; `range` over the map gives its keys in any order, and they are
  -- sorted.
  unfoldable pub sorted_programs : Tx → StatusMeta → List PublicKey → List GoString
  sorted_programs tx meta keys =
      sort_strings
        (add_inner keys (inner_programs meta) (add_programs keys (instruction_programs tx) []))

  unfoldable pub program_set : Tx → StatusMeta → List PublicKey → GoString
  unfolding sorted_programs
  program_set tx meta keys = join (b',' ∷ []) (sorted_programs tx meta keys)
