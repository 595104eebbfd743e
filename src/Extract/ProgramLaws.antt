-- ===== src/Extract/ProgramLaws.antt =====
-- `programSet` is the ascending list of the programs that were invoked.
use epochfill.Common.{
  ℕ, ◌≡◌, refl, inl, inr, Bool, true, ◌&&◌, ◌||◌, Bool-cases, Option-cases, Option, none, some,
  List, [], ◌∷◌, ◌++◌, text_eq_iff, all_of, elem, get_elem?, text_equality, arith,
}
use epochfill.Go.Text.{GoString}
use epochfill.Go.Text.Sort.{
  Ascends, Distinct, sort_strings-Ascends, elem-sort_strings, all_of-sort_strings,
}
use epochfill.Extract.Chain.{Chain}
use epochfill.Extract.Programs.{add_programs, add_inner, sorted_programs}

-- What holds of every element holds of each.
all_of-elem :
    (p : GoString → Bool) (s : GoString) (l : List GoString)
    → elem s l ≡ true
    → all_of p l ≡ true
    → p s ≡ true
all_of-elem p s [] here h = cc
all_of-elem p s (x ∷ l) here h = ground (arith, all_of-elem p s l, text_eq_iff x s)

elem-append : (s : GoString) (l m : List GoString) → elem s (l ++ m) ≡ (elem s l || elem s m)
elem-append s [] m = refl
elem-append s (x ∷ l) m = ground (arith, elem-append s l m)

pub all_of-append :
    (p : GoString → Bool) (l m : List GoString) → all_of p (l ++ m) ≡ (all_of p l && all_of p m)
all_of-append p [] m = refl
all_of-append p (x ∷ l) m = ground (arith, all_of-append p l m)

module _ (chain : Chain) where
  open chain use {PublicKey, Tx, Node, StatusMeta, key_string, instruction_programs, inner_programs}

  abbrev pub with_key : Option PublicKey → List GoString → List GoString
  with_key none l = l
  with_key (some k) l = key_string k ∷ l

  -- The texts of the programs that were invoked: the keys at the indexes that are in range.
  abbrev pub programs_at : List PublicKey → List ℕ → List GoString
  programs_at keys [] = []
  programs_at keys (idx ∷ r) = with_key (get_elem? keys idx) (programs_at keys r)

  abbrev pub inner_at : List PublicKey → List (List ℕ) → List GoString
  inner_at keys [] = []
  inner_at keys (inner ∷ r) = programs_at keys inner ++ inner_at keys r

  abbrev pub invoked : Tx → StatusMeta → List PublicKey → List GoString
  invoked tx meta keys =
      programs_at keys (instruction_programs tx) ++ inner_at keys (inner_programs meta)

  -- The set `seen` holds what it held and what was added, each once.
  record Added (more seen out : List GoString) : Type 0 where
    members : (s : GoString) → elem s out ≡ (elem s seen || elem s more)
    all : (p : GoString → Bool) → all_of p out ≡ (all_of p seen && all_of p more)
    distinct : Distinct out

  add_programs-Added :
      (keys : List PublicKey) (idxs : List ℕ) (seen : List GoString)
      → Distinct seen
      → Added (programs_at keys idxs) seen (add_programs chain keys idxs seen)
  unfolding add_programs
  add_programs-Added keys [] seen h = record {
    members = λ s. ground arith;
    all = λ p. ground arith;
    distinct = h;
  }
  add_programs-Added keys (idx ∷ r) seen h = elim (Option-cases (get_elem? keys idx)) [
    | inl out_of_range ↦
        let rest = add_programs-Added keys r seen h in rw (out_of_range, programs_at) rest
    | inr (k, found) ↦ elim (Bool-cases (elem (key_string k) seen)) [
      | inl old ↦
          let rest = add_programs-Added keys r seen h in
          rw (found, programs_at, old)
            (record {
              members = λ s. ground (arith, rest.members s, old, text_eq_iff (key_string k) s);
              all = λ p. ground (arith, rest.all p, old, all_of-elem p (key_string k) seen);
              distinct = rest.distinct;
            })
      | inr new ↦
          let rest = add_programs-Added keys r (key_string k ∷ seen) (new, h) in
          rw (found, programs_at, new)
            (record {
              members = λ s. ground (arith, rest.members s);
              all = λ p. ground (arith, rest.all p);
              distinct = rest.distinct;
            })
    ]
  ]

  add_inner-Added :
      (keys : List PublicKey) (inner : List (List ℕ)) (seen : List GoString)
      → Distinct seen
      → Added (inner_at keys inner) seen (add_inner chain keys inner seen)
  unfolding add_inner
  add_inner-Added keys [] seen h = record {
    members = λ s. ground arith;
    all = λ p. ground arith;
    distinct = h;
  }
  add_inner-Added keys (idxs ∷ r) seen h =
      let first = add_programs-Added keys idxs seen h in
      let rest = add_inner-Added keys r (add_programs chain keys idxs seen) first.distinct in
      record {
        members = λ s. ground (
          arith,
          rest.members s,
          first.members s,
          elem-append s (programs_at keys idxs) (inner_at keys r),
        );
        all = λ p. ground (
          arith,
          rest.all p,
          first.all p,
          all_of-append p (programs_at keys idxs) (inner_at keys r),
        );
        distinct = rest.distinct;
      }

  -- The programs of the column: ascending, without repetition, and exactly those that a top-level
  -- or an inner instruction invokes by an index in range. A test holds of all of them exactly if
  -- it holds of all that were invoked.
  pub sorted_programs_lem :
      (tx : Tx) (meta : StatusMeta) (keys : List PublicKey)
      → Ascends (sorted_programs chain tx meta keys)
        × ((s : GoString)
            → elem s (sorted_programs chain tx meta keys) ≡ elem s (invoked tx meta keys))
        × ((p : GoString → Bool)
            → all_of p (sorted_programs chain tx meta keys) ≡ all_of p (invoked tx meta keys))
  unfolding sorted_programs
  sorted_programs_lem tx meta keys =
      let top = add_programs-Added keys (instruction_programs tx) [] tt in
      let set = add_programs chain keys (instruction_programs tx) [] in
      let both = add_inner-Added keys (inner_programs meta) set top.distinct in
      let whole = add_inner chain keys (inner_programs meta) set in
      (
        sort_strings-Ascends whole both.distinct,
        λ s. ground (
          arith,
          elem-sort_strings s whole,
          both.members s,
          top.members s,
          elem-append s (programs_at keys (instruction_programs tx))
              (inner_at keys (inner_programs meta)),
        ),
        λ p. ground (
          arith,
          all_of-sort_strings p whole,
          both.all p,
          top.all p,
          all_of-append p (programs_at keys (instruction_programs tx))
              (inner_at keys (inner_programs meta)),
        ),
      )
