-- ===== src/Log/Segmented/Left.antt =====
-- src/log.rs: the files of a log whose segments each leave their two files.
use raft_distributed_log_rs.Log.Segmented
use raft_distributed_log_rs.Log.Segment
use raft_distributed_log_rs.Log.Io.{done}
use raft_distributed_log_rs.Log.Segment.{Segment, SegmentFiles}
use raft_distributed_log_rs.Log.Segment.Records.{HoldsRecords, length-AllHold}
use raft_distributed_log_rs.Log.Segment.Reopen.{IsConfigured, Reopens}
use raft_distributed_log_rs.Log.Segmented.{Log}
use raft_distributed_log_rs.Log.Segmented.Contents.{
  AllFilled, AllMapped, AllMapped-append, Chain, Chain-append, Represents, flatten, flatten-append,
}
use raft_distributed_log_rs.Log.Segmented.Files.{Files, bases, reopens}
use raft_distributed_log_rs.Log.Store.Records.{content}
use raft_distributed_log_rs.Prelude.{
  List, [], ap, arith, if◌then◌else◌, length, length-append, refl, subst, sym, ℕ, ◌++◌, ◌+◌, ◌<◌,
  ◌==◌, ◌∙◌, ◌∷◌, ◌≡◌, ◌≢◌, ◌≤◌,
}

-- The files in the directory, for what a segment leaves.
unfoldable pub left :
    (Segment → SegmentFiles) → List Segment → (ℕ → SegmentFiles) → ℕ → SegmentFiles
left leave [] disk off = disk off
left leave (s ∷ ss) disk off =
    let rest = left leave ss disk off in if s.base_offset == off then leave s else rest

abbrev pub All : (Segment → Type 0) → List Segment → Type 0
All P [] = Unit {0}
All P (s ∷ ss) = P s × All P ss

pub All-append :
    (P : Segment → Type 0) (ss : List Segment) (s : Segment) → All P ss → P s → All P (ss ++ s ∷ [])
All-append P [] s h p = (p, tt)
All-append P (x ∷ ss) s h p = (h.0, All-append P ss s h.1 p)

module _ (leave : Segment → SegmentFiles) (P : Segment → Type 0)
    (leaves : (s : Segment) (rs : List (List ℕ))
      → HoldsRecords s rs
      → IsConfigured s
      → P s
      → Reopens s rs (leave s)) where
  left_here :
      (s : Segment) (ss : List Segment) (old : ℕ → SegmentFiles)
      → left leave (s ∷ ss) old s.base_offset ≡ leave s
  unfolding left
  left_here s ss old = ground arith

  left_later :
      (s : Segment) (ss : List Segment) (old : ℕ → SegmentFiles) (off : ℕ)
      → s.base_offset ≢ off
      → left leave (s ∷ ss) old off ≡ left leave ss old off
  unfolding left
  left_later s ss old off ne = ground arith

  left-Reopens :
      (s : Segment) (ss : List Segment) (rs : List (List ℕ)) (old : ℕ → SegmentFiles)
      (files : SegmentFiles)
      → HoldsRecords s rs
      → IsConfigured s
      → P s
      → files ≡ left leave (s ∷ ss) old s.base_offset
      → Reopens s rs files
  left-Reopens s ss rs old files h configured p e =
      subst (Reopens s rs) (sym (e ∙ left_here s ss old)) (leaves s rs h configured p)

  -- The files that are left hold the records of their segments.
  Files-left :
      (b : ℕ) (front : List Segment) (groups : List (List (List ℕ))) (act : Segment)
      (recent : List (List ℕ)) (cfg : Segmented.Config) (old disk : ℕ → SegmentFiles)
      → Chain b front groups
      → AllFilled groups
      → AllMapped cfg front
      → act.base_offset ≡ b + length (flatten groups)
      → HoldsRecords act recent
      → IsConfigured act
      → All P (front ++ act ∷ [])
      → ((off : ℕ) → b ≤ off → disk off ≡ left leave (front ++ act ∷ []) old off)
      → Files disk (front ++ act ∷ []) (groups ++ recent ∷ [])
  Files-left b [] [] act recent cfg old disk c filled m base h configured p same = (
    left-Reopens act [] recent old (disk act.base_offset) h configured p.0
        (same act.base_offset (omega (arith, base))),
    tt,
  )
  Files-left b [] (rs ∷ groups) act recent cfg old disk c filled m base h configured p same =
      absurd c
  Files-left b (s ∷ ss) [] act recent cfg old disk c filled m base h configured p same = absurd c
  Files-left b (s ∷ ss) (rs ∷ groups) act recent cfg old disk c filled m base h configured p same =
      (
        left-Reopens s (ss ++ act ∷ []) rs old (disk s.base_offset) c.1 m.0.0 p.0
            (same s.base_offset (omega (arith, c.0))),
        Files-left (b + length rs) ss groups act recent cfg old disk c.2 filled.1 m.1
            (omega (arith, base, length-append rs (flatten groups))) h configured p.1
            (λ off above.
              same off (omega arith)
              ∙ left_later s (ss ++ act ∷ []) old off
                  (λ e. absurd (omega (arith, c.0, e, filled.0)))),
      )

  left_above :
      (b : ℕ) (ss : List Segment) (groups : List (List (List ℕ))) (old : ℕ → SegmentFiles) (off : ℕ)
      → Chain b ss groups
      → b + length (flatten groups) < off
      → left leave ss old off ≡ old off
  unfolding left
  left_above b [] groups old off c above = refl
  left_above b (s ∷ ss) [] old off c above = absurd c
  left_above b (s ∷ ss) (rs ∷ groups) old off c above =
      left_later s ss old off
        (λ e. absurd (omega (arith, c.0, e, length-append rs (flatten groups))))
      ∙ left_above (b + length rs) ss groups old off c.2
          (omega (arith, length-append rs (flatten groups)))

  -- A log that is opened from the files that the segments of another left represents the same
  -- records.
  pub left-new :
      (l : Log) (b : ℕ) (all : List (List ℕ)) (disk : ℕ → SegmentFiles)
      → Represents l b all
      → All P l.segments
      → ((off : ℕ) → disk off ≡ left leave l.segments l.disk off)
      → (l' : Log) × (Segmented.new l.cfg (bases l.segments) disk ≡ done l') × Represents l' b all
  left-new l b all disk h p same =
      let whole = h.front ++ h.act ∷ [] in
      let chain = Chain-append b h.front h.groups h.act h.recent h.chained h.act_base h.act_holds in
      let same' : (off : ℕ) → disk off ≡ left leave whole l.disk off =
        λ off. same off ∙ ap (λ (ss : List Segment). left leave ss l.disk off) h.shape in
      let (l', opens, represents) =
        reopens l.cfg b whole h.groups h.recent all disk chain
          (AllMapped-append l.cfg h.front h.act h.front_mapped (h.act_mapped, h.act_cfg)) h.filled
          (Files-left b h.front h.groups h.act h.recent l.cfg l.disk disk h.chained h.filled
            h.front_mapped h.act_base h.act_holds h.act_mapped (rw h.shape at p)
            (λ off above. same' off))
          h.contents
          (omega (
            arith,
            h.ready,
            h.act_holds.indexed.counted,
            length-AllHold (content h.act.store) h.act_holds.positions h.recent h.act_holds.stored,
            h.act_mapped.0,
            ap (λ (x : Segment.Config). x.max_index_bytes) h.act_cfg,
          ))
          h.aligned
          (λ off above.
            same' off
            ∙ left_above b whole (h.groups ++ h.recent ∷ []) l.disk off chain (
                omega (
                  arith,
                  above,
                  ap length (flatten-append h.groups h.recent),
                  ap length h.contents,
                ))
            ∙ h.clean off above) in
      (
        l',
        subst (λ (ss : List Segment). Segmented.new l.cfg (bases ss) disk ≡ done l') (sym h.shape)
            opens,
        represents,
      )
