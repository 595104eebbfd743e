-- ===== src/Run/Owned.antt =====
-- The files of the index directory besides those of the address index and the sidecars, while `Run` of
-- backfill/run.go goes on.
use mathlib.Core.Path.{subst}
use epochfill.Common.{
  ◌≡◌, ◌∙◌, refl, ap, inl, inr, Bool, true, false, Bool-cases, Option, none, some, List, [], ◌∷◌,
  ◌++◌, elem, text_eq, ◌==◌, ◌||◌, text_equality, text_eq_iff, beq_refl, arith,
}
use epochfill.Go.Text.{GoString}
use epochfill.Go.Filepath.{slash}
use epochfill.Gsfa.Inside.{has_prefix-slash}
use epochfill.Store.{EpochDb, meta_value}
use epochfill.Run.{meta_discovered, yes_text}
use epochfill.Run.Disk.{
  add_file, remove_file, sidecar, SidecarEnd, same, written, removed, set_sidecar, FetchEnd,
  complete, not_created, created, fetch, tarball, under, GsfaCalls, add_all, after_unpack,
  after_tarball, open_index, remove_under, release,
}
use epochfill.Run.Files.{elem-add_file, elem-remove_file}
use epochfill.Run.Lifecycle.{
  Config, Calls, root_of, slot_path, offset_path, opened_index, discovery_files,
}

-- The files of the address index, its tarball, and the sidecars of the three downloads.
abbrev pub is_own : Config → GoString → Bool
is_own cfg p =
    under (root_of cfg) p
    || (tarball (root_of cfg) == p)
    || (sidecar (tarball (root_of cfg)) == p)
    || (sidecar (slot_path cfg) == p)
    || (sidecar (offset_path cfg) == p)

-- Whether a path is there, or is none that the theorem is about.
abbrev pub there : Config → GoString → List GoString → Bool
there cfg p files = elem p files || is_own cfg p

pub there-add_file :
    (cfg : Config) (p q : GoString) (files : List GoString)
    → there cfg p (add_file q files) ≡ (there cfg p files || q == p)
there-add_file cfg p q files = ap (λ b. b || is_own cfg p) (elem-add_file p q files) ∙ ground arith

module _ (cfg : Config) (p : GoString) where
  -- A path that is put or removed is not the one that the theorem is about.
  own_same : (q : GoString) → is_own cfg q ≡ true → (q == p) ≡ true → is_own cfg p ≡ true
  own_same q own e = subst (λ r. is_own cfg r ≡ true) ((text_eq_iff q p).0 e) own

  there-add_own :
      (q : GoString) (files : List GoString)
      → is_own cfg q ≡ true
      → there cfg p (add_file q files) ≡ there cfg p files
  there-add_own q files own = there-add_file cfg p q files ∙ elim (Bool-cases (q == p)) [
    | inl here ↦ rw (here, own_same q own here) (ground arith)
    | inr apart ↦ rw apart (ground arith)
  ]

  there-remove_own :
      (q : GoString) (files : List GoString)
      → is_own cfg q ≡ true
      → there cfg p (remove_file q files) ≡ there cfg p files
  there-remove_own q files own = elim (Bool-cases (q == p)) [
    | inl here ↦ rw (own_same q own here) (ground arith)
    | inr apart ↦ rw (elem-remove_file p q files, apart) (ground arith)
  ]

  pub there-set_sidecar :
      (side : SidecarEnd) (path : GoString) (files : List GoString)
      → is_own cfg (sidecar path) ≡ true
      → there cfg p (set_sidecar side path files) ≡ there cfg p files
  there-set_sidecar same path files own = refl
  there-set_sidecar written path files own = there-add_own (sidecar path) files own
  there-set_sidecar removed path files own = there-remove_own (sidecar path) files own

  there-fetch :
      (end : FetchEnd) (path : GoString) (files : List GoString)
      → is_own cfg path ≡ true
      → is_own cfg (sidecar path) ≡ true
      → there cfg p (fetch end path files).1 ≡ there cfg p files
  there-fetch (complete side) path files own own_side =
      there-set_sidecar side path (add_file path files) own_side ∙ there-add_own path files own
  there-fetch (not_created canceled side) path files own own_side =
      there-set_sidecar side path files own_side
  there-fetch (created canceled side) path files own own_side =
      there-set_sidecar side path (add_file path files) own_side ∙ there-add_own path files own

  own_under : (q : GoString) → under (root_of cfg) q ≡ true → is_own cfg q ≡ true
  own_under q h = ground (arith, h)

  there-add_all :
      (names files : List GoString)
      → there cfg p (add_all (root_of cfg) names files) ≡ there cfg p files
  there-add_all [] files = refl
  there-add_all (name ∷ r) files =
      there-add_all r (add_file (root_of cfg ++ (slash ∷ name)) files)
      ∙ there-add_own (root_of cfg ++ (slash ∷ name)) files
          (own_under (root_of cfg ++ (slash ∷ name)) (has_prefix-slash (root_of cfg) name))

  there-remove_under :
      (fails : GoString → Bool) (files : List GoString)
      → there cfg p (remove_under fails (root_of cfg) files) ≡ there cfg p files
  there-remove_under fails [] = refl
  there-remove_under fails (f ∷ files) =
      let ih = there-remove_under fails files in
      elim (Bool-cases (under (root_of cfg) f)) [
        | inr outside ↦ rw outside (ground (arith, ih))
        | inl inside ↦ elim (Bool-cases (f == p)) [
          | inl here ↦ rw (own_same f (own_under f inside) here) (ground arith)
          | inr apart ↦ elim (Bool-cases (fails f)) [
            | inl stays ↦ rw (inside, stays) (ground (arith, ih))
            | inr goes ↦ rw (inside, goes, apart) ih
          ]
        ]
      ]

  own_tarball : is_own cfg (tarball (root_of cfg)) ≡ true
  own_tarball = ground (arith, beq_refl (tarball (root_of cfg)))

  own_tarball_side : is_own cfg (sidecar (tarball (root_of cfg))) ≡ true
  own_tarball_side = ground (arith, beq_refl (sidecar (tarball (root_of cfg))))

  pub own_slot_side : is_own cfg (sidecar (slot_path cfg)) ≡ true
  own_slot_side = ground (arith, beq_refl (sidecar (slot_path cfg)))

  pub own_offset_side : is_own cfg (sidecar (offset_path cfg)) ≡ true
  own_offset_side = ground (arith, beq_refl (sidecar (offset_path cfg)))

  there-after_unpack :
      (fails : GoString → Bool) (g : GsfaCalls) (files : List GoString)
      → there cfg p (after_unpack fails (root_of cfg) g files).1 ≡ there cfg p files
  there-after_unpack fails g files = elim (Bool-cases g.unpacks) [
    | inr broken ↦ rw broken refl
    | inl whole ↦ elim (Bool-cases (fails (tarball (root_of cfg)))) [
      | inl stays ↦ rw (whole, stays) refl
      | inr goes ↦ rw (whole, goes) (there-remove_own (tarball (root_of cfg)) files own_tarball)
    ]
  ]

  there-after_tarball :
      (fails : GoString → Bool) (g : GsfaCalls) (err : Option Bool) (files : List GoString)
      → there cfg p (after_tarball fails (root_of cfg) g (err, files)).1 ≡ there cfg p files
  there-after_tarball fails g (some canceled) files = refl
  there-after_tarball fails g none files =
      there-after_unpack fails g (add_all (root_of cfg) g.unpacked files)
      ∙ there-add_all g.unpacked files

  there-open_index :
      (fails : GoString → Bool) (g : GsfaCalls) (files : List GoString)
      → there cfg p (open_index fails (root_of cfg) g files).1 ≡ there cfg p files
  unfolding open_index
  there-open_index fails g files = elim (Bool-cases g.found_before) [
    | inl found ↦ rw found refl
    | inr missing ↦
        let got = fetch g.tarball_end (tarball (root_of cfg)) files in
        rw missing (
          there-after_tarball fails g got.0 got.1
          ∙ there-fetch g.tarball_end (tarball (root_of cfg)) files own_tarball own_tarball_side)
  ]

  there-release :
      (keep : Bool) (fails : GoString → Bool) (opened : Bool) (files : List GoString)
      → there cfg p (release keep fails (root_of cfg) (opened, files)) ≡ there cfg p files
  there-release keep fails false files = refl
  there-release true fails true files = refl
  there-release false fails true files = there-remove_under fails files

  -- Discovery leaves the other files as they are.
  pub there-discovery_files :
      (calls : Calls) (db : EpochDb) (files : List GoString)
      → there cfg p (discovery_files cfg calls db files) ≡ there cfg p files
  unfolding discovery_files
  there-discovery_files calls db files =
      elim (Bool-cases (text_eq (meta_value calls.get_faults db meta_discovered) yes_text)) [
        | inl marked ↦ rw marked refl
        | inr new ↦ elim (Bool-cases calls.use_rpc) [
          | inl rpc ↦ rw (new, rpc) refl
          | inr index ↦
              let opened = opened_index cfg calls files in
              rw (new, index)
                (there-release cfg.keep_indexes calls.remove_fails opened.0 opened.1
                  ∙ there-open_index calls.remove_fails calls.gsfa files)
        ]
      ]
