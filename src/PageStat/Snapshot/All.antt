-- ===== src/PageStat/Snapshot/All.antt =====
-- `pagestat_snapshot_all` on the smaps file of a whole process.
use mathlib.Core.List.{append-nil, append_assoc}
use mm_exper.Base.{ℕ, zero, suc, ◌<◌, ◌≡◌, refl, ap, ◌∙◌, arith}
use mm_exper.Base.{none, some, List, [], ◌∷◌, ◌++◌, length}
use mm_exper.Base.Text.{Bytes}
use mm_exper.Base.Word.{invalid_value}
use mm_exper.Base.Proc.{Proc}
use mm_exper.PageStat.Data.{PageStat, max_maps}
use mm_exper.PageStat.Smaps.{Scratch, Locals}
use mm_exper.PageStat.Smaps.Loop.{AreFieldLines}
use mm_exper.PageStat.Snapshot.{
  Taken, get_pagestat_snapshot, snapshot_loop, pagestat_snapshot_all, open_smaps,
}
use mm_exper.PageStat.Snapshot.Laws.{
  Block, block_lines, IsBlock, TakenAs, snapshot-only_fields, snapshot-last, snapshot-before_header,
}

-- The first, the third, and so on.
abbrev pub every_other {ℓ} : {A : Type ℓ} → List A → List A
every_other [] = []
every_other (x ∷ []) = x ∷ []
every_other (x ∷ y ∷ xs) = x ∷ every_other xs

-- A mapping's lines with the snapshot that they give alone.
abbrev pub Mapping : Type 0
Mapping = Block × PageStat

abbrev pub mapping_lines : List Mapping → List Bytes
mapping_lines [] = []
mapping_lines (m ∷ ms) = block_lines m.0 ++ mapping_lines ms

abbrev pub snapshots : List Mapping → List PageStat
snapshots [] = []
snapshots (m ∷ ms) = m.1 ∷ snapshots ms

module _ (proc : Proc) (locals : Locals) (pid : Bytes) where
  abbrev pub AreMappings : List Mapping → Type 0
  AreMappings [] = Unit
  AreMappings (m ∷ ms) = IsBlock m.0 × TakenAs proc locals pid m.0 m.1 × AreMappings ms

  loop_end :
      (n : ℕ) (pss : List PageStat) (lines rest : List Bytes)
      → get_pagestat_snapshot proc locals pid lines invalid_value ≡ (none, rest)
      → snapshot_loop proc locals pid (suc n) pss lines ≡ some pss
  unfolding snapshot_loop
  loop_end n pss lines rest e = rw (e, snapshot_loop) refl

  loop_step :
      (n : ℕ) (pss : List PageStat) (lines rest : List Bytes) (ps : PageStat)
      → get_pagestat_snapshot proc locals pid lines invalid_value ≡ (some ps, rest)
      → snapshot_loop proc locals pid (suc n) pss lines
        ≡ snapshot_loop proc locals pid n (pss ++ ps ∷ []) rest
  unfolding snapshot_loop
  loop_step n pss lines rest ps e =
      rw (e, snapshot_loop)
        (ap (λ (t : Taken). snapshot_loop proc locals pid n (pss ++ ps ∷ []) t.1) e)

  module _ (retained : (s : Scratch) → locals.kept s ≡ s) where
    loop-every_other :
        (ms : List Mapping) (n : ℕ) (pss : List PageStat) (skipped : List Bytes)
        → AreFieldLines skipped
        → AreMappings ms
        → length (every_other ms) < n
        → snapshot_loop proc locals pid n pss (skipped ++ mapping_lines ms)
          ≡ some (pss ++ snapshots (every_other ms))
    loop-every_other ms zero pss skipped a h lt = elim lt [ ]
    loop-every_other [] (suc n) pss skipped a h lt =
        rw (append-nil skipped, append-nil pss)
          (loop_end n pss skipped [] (snapshot-only_fields proc locals pid skipped a))
    loop-every_other (m ∷ []) (suc zero) pss skipped a h lt = absurd (omega arith)
    loop-every_other (m ∷ []) (suc (suc n)) pss skipped a h lt = rw (append-nil m.0.fields) (
        loop_step (suc n) pss (skipped ++ block_lines m.0) [] m.1
          (snapshot-last proc locals pid retained skipped m.0 m.1 a h.0 h.1)
        ∙ loop_end n (pss ++ m.1 ∷ []) [] [] (snapshot-only_fields proc locals pid [] tt))
    loop-every_other (m ∷ k ∷ ms) (suc n) pss skipped a h lt =
        loop_step n pss _ _ m.1 (
          snapshot-before_header proc locals pid retained skipped m.0 m.1 k.0.header
            (k.0.field ∷ (k.0.fields ++ mapping_lines ms)) a h.0 h.1 (h.2.0).header_line)
        ∙ loop-every_other ms n (pss ++ m.1 ∷ []) (k.0.field ∷ k.0.fields) (h.2.0).field_lines h.2.2
            (omega arith)
        ∙ ap some (append_assoc pss (m.1 ∷ []) (snapshots (every_other ms)))

    -- If the smaps file holds the lines of some mappings, each of which gives a snapshot alone, if
    -- the uninitialised locals keep their values, and if fewer than `MAX_MAPS` are stored: of the
    -- mappings `pagestat_snapshot_all` stores the first, the third and so on. Each second one is
    -- passed over, since the loop over the fields of the one before has taken its header line.
    pub pagestat_snapshot_all-every_other :
        (ms : List Mapping)
        → AreMappings ms
        → open_smaps proc pid ≡ some (mapping_lines ms)
        → length (every_other ms) < max_maps
        → pagestat_snapshot_all proc locals pid ≡ some (snapshots (every_other ms))
    unfolding pagestat_snapshot_all
    pagestat_snapshot_all-every_other ms h opened lt =
        rw (opened, pagestat_snapshot_all) (loop-every_other ms max_maps [] [] tt h lt)
