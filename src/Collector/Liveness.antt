-- ===== src/Collector/Liveness.antt =====
-- Repeated visits of a file that no longer changes (crates/exporter/src/collector.rs).
use pg_plansight.Prelude.{
  ℕ, ◌+◌, ◌*◌, ◌^◌, ◌≤◌, ◌<◌, ◌≡◌, refl, sym, ap, ◌∙◌, ◌⊎◌, inl, inr, true, false, not, Option,
  none, some, List, [], ◌∷◌, arith, length, take_all,
}
use pg_plansight.Scan.Verdict.{Simd}
use pg_plansight.Collector.{FileState, FileRuntime, u64_max, LogParsing, Metadata, FileView, Intake}
use pg_plansight.Collector.Range.{is_gzip, is_bzip2, is_compressed_file}
use pg_plansight.Collector.File.{
  exceeds_limit, observe, process_present, process_log_file, process_stated,
}
use pg_plansight.Collector.Moves.{
  position, position-le, rotate_kept, Follows, Shows, process_present-Moved,
}
use pg_plansight.Collector.History.{visit_all}
use pg_plansight.Collector.Progress.{left}
use pg_plansight.Collector.Settles.{at_end, process_present-Gains}

-- The file is found as these metadata say, the state database can be read and written, and the
-- query hashes recorded. Its bytes need not be readable.
pub record Steady (m : Metadata) (view : FileView) : Type 0 where
  pub metadata : view.metadata ≡ some m
  pub state_read : view.state_read ≡ true
  pub state_written : view.state_written ≡ true
  pub hashes_recorded : view.hashes_recorded ≡ true
  pub plain : is_compressed_file view.content ≡ false

abbrev pub AllSteady : Metadata → List FileView → Type 0
AllSteady m [] = Unit
AllSteady m (view ∷ views) = Steady m view × AllSteady m views

content_of : (content : Option (List ℕ)) → List ℕ
content_of none = []
content_of (some c) = c

content_of-plain :
    (content : Option (List ℕ))
    → is_compressed_file content ≡ false
    → is_compressed_file (some (content_of content)) ≡ false
unfolding content_of is_compressed_file is_gzip is_bzip2
content_of-plain none e = refl
content_of-plain (some c) e = e

content_of-Shows : (content : Option (List ℕ)) → Shows (content_of content) content
unfolding content_of
content_of-Shows none = tt
content_of-Shows (some c) = (length c, sym (take_all (length c) c (omega arith)))

module _ (s : Simd) (intake : Intake) (config : LogParsing) (m : Metadata) where
  open intake use {Grouper, Queries}

  pub present :
      (view : FileView) (stored : Option FileState) (r : FileRuntime) (g : Grouper)
      → Steady m view
      → process_log_file s intake config view stored r g
        ≡ process_present s intake config view m stored r g
  unfolding process_log_file
  present view stored r g steady =
      ap (λ o. process_stated s intake config view o stored r g) steady.metadata

  Steady-Follows :
      (view : FileView) (stored : Option FileState) (r : FileRuntime) (g : Grouper)
      → Steady m view
      → Follows m.dev m.ino m.len stored
      → Follows m.dev m.ino m.len (process_log_file s intake config view stored r g).stored
  Steady-Follows view stored r g steady follows =
      rw (present view stored r g steady)
        (process_present-Moved s intake (λ g. Unit) (content_of view.content) config view m stored r
          g (record { by_take = λ g. tt; at_first = tt }) tt
          (content_of-plain view.content steady.plain) (content_of-Shows view.content)
          steady.state_written follows).next

  module _ (small : exceeds_limit config m ≡ false) (fits : m.len ≤ u64_max)
      (enough : (config.max_read_bytes_per_cycle ≡ 0)
        ⊎ (m.len ≤ config.max_read_bytes_per_cycle * 2 ^ 20)) where
    Steady-Gains :
        (view : FileView) (stored : Option FileState) (r : FileRuntime) (g : Grouper)
        → Steady m view
        → Follows m.dev m.ino m.len stored
        → (position (process_log_file s intake config view stored r g).stored ≡ m.len)
          ⊎ (left m
                (process_log_file s intake config view stored r g).stored
                (process_log_file s intake config view stored r g).runtime
              < left m stored r)
    Steady-Gains view stored r g steady follows = rw (present view stored r g steady) (
        process_present-Gains s intake config view m steady.state_written steady.hashes_recorded
          stored r g steady.state_read small steady.plain fits enough follows)

    pub stays_one :
        (view : FileView) (stored : Option FileState) (r : FileRuntime) (g : Grouper)
        → Steady m view
        → Follows m.dev m.ino m.len stored
        → position stored ≡ m.len
        → position (process_log_file s intake config view stored r g).stored ≡ m.len
    stays_one view stored r g steady follows end =
        let guard : not view.state_read ≡ false = ap not steady.state_read in
        rw (present view stored r g steady) (
          unfold process_present in
          rw (small, guard, rotate_kept stored m view.now follows)
            (ap position (
                at_end s intake config view m steady.state_written steady.hashes_recorded stored
                  (observe r m) g end)
              ∙ end))

    stays :
        (views : List FileView) (stored : Option FileState) (r : FileRuntime) (g : Grouper)
        → AllSteady m views
        → Follows m.dev m.ino m.len stored
        → position stored ≡ m.len
        → position (visit_all s intake config views stored r g).stored ≡ m.len
    unfolding visit_all
    stays [] stored r g steady follows end = end
    stays (view ∷ views) stored r g (steady, rest) follows end =
        let v = process_log_file s intake config view stored r g in
        stays views v.stored v.runtime v.grouper rest
          (Steady-Follows view stored r g steady follows)
          (stays_one view stored r g steady follows end)

    reaches :
        (views : List FileView) (stored : Option FileState) (r : FileRuntime) (g : Grouper)
        → AllSteady m views
        → Follows m.dev m.ino m.len stored
        → left m stored r ≤ length views
        → position (visit_all s intake config views stored r g).stored ≡ m.len
    unfolding visit_all
    reaches [] stored r g steady follows bound = omega (arith, bound, position-le m stored follows)
    reaches (view ∷ views) stored r g (steady, rest) follows bound =
        let v = process_log_file s intake config view stored r g in
        let next = Steady-Follows view stored r g steady follows in
        elim (Steady-Gains view stored r g steady follows) [
          | inl end ↦ stays views v.stored v.runtime v.grouper rest next end
          | inr fewer ↦
              reaches views v.stored v.runtime v.grouper rest next (omega (arith, fewer, bound))
        ]

    -- A file that no longer changes is brought to its end: after 63 * len + 188 visits the
    -- checkpoint is at the end of the file, and it stays there, whatever the parser does, errors
    -- and panics included, and even when the bytes cannot be read. The file is within the size
    -- limit, is not compressed and was not rotated since the checkpoint, and it is at most as long
    -- as the widest read budget; the state database and the query hashes can be used.
    pub visit_all-reaches_end :
        (views : List FileView) (stored : Option FileState) (r : FileRuntime) (g : Grouper)
        → AllSteady m views
        → Follows m.dev m.ino m.len stored
        → 63 * m.len + 188 ≤ length views
        → position (visit_all s intake config views stored r g).stored ≡ m.len
    visit_all-reaches_end views stored r g steady follows many =
        reaches views stored r g steady follows (omega (arith, many))
