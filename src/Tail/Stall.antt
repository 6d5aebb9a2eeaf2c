-- ===== src/Tail/Stall.antt =====
-- Where the worker of crates/pg_extension/src/bgworker.rs cannot move on.
use pg_plansight.Prelude.{
  ℕ, zero, suc, ◌+◌, ◌-◌, ◌≤◌, ◌<◌, min, ◌≡◌, refl, sym, ap, ap₂, subst, ◌∙◌, inl, inr, true, false,
  ◌&&◌, not, List, [], ◌∷◌, ◌++◌, arith, ltb, leb, Bool-cases, length, take, drop, length-append,
  length-drop,
}
use pg_plansight.Scan.Verdict.{Simd}
use pg_plansight.Collector.Boundary.{split_inclusive}
use pg_plansight.Collector.Lines.{concat}
use pg_plansight.Tail.{
  max_read_bytes, no_headers, Cycle, see_lines, last_complete_boundary, read_new_complete,
  flush_cycle, flush_cycles,
}

take-append {ℓ} :
    {A : Type ℓ} (n : ℕ) (xs ys : List A) → n ≤ length xs → take n (xs ++ ys) ≡ take n xs
take-append zero xs ys h = refl
take-append (suc n) [] ys h = absurd (omega arith)
take-append (suc n) (x ∷ xs) ys h = ap (◌∷◌ x) (take-append n xs ys (omega arith))

drop-append {ℓ} :
    {A : Type ℓ} (n : ℕ) (xs ys : List A) → n ≤ length xs → drop n (xs ++ ys) ≡ drop n xs ++ ys
drop-append zero xs ys h = refl
drop-append (suc n) [] ys h = absurd (omega arith)
drop-append (suc n) (x ∷ xs) ys h = drop-append n xs ys (omega arith)

module _ (s : Simd) (from_utf8_lossy : List ℕ → List ℕ) where
  -- The entries that start in some bytes.
  abbrev pub headers_in : List ℕ → ℕ
  headers_in bytes = (see_lines s from_utf8_lossy no_headers (split_inclusive bytes)).header_count

  -- From the offset on there are as many bytes as one read takes, and at most one entry starts in them.
  pub record Sparse (file : List ℕ) (offset : ℕ) : Type 0 where
    pub enough : offset + max_read_bytes ≤ length file
    pub few : headers_in (take max_read_bytes (drop offset file)) < 2

  same_chunk :
      (file more : List ℕ) (offset : ℕ)
      → offset + max_read_bytes ≤ length file
      → take max_read_bytes (drop offset (file ++ more)) ≡ take max_read_bytes (drop offset file)
  same_chunk file more offset h =
      ap (take max_read_bytes) (drop-append offset file more (omega (arith, h)))
      ∙ take-append max_read_bytes (drop offset file) more
          (omega (arith, length-drop offset file, h))

  grow-Sparse :
      (file more : List ℕ) (offset : ℕ) → Sparse file offset → Sparse (file ++ more) offset
  grow-Sparse file more offset sparse = record {
    enough = omega (arith, length-append file more, sparse.enough);
    few =
        subst (λ bytes. headers_in bytes < 2) (sym (same_chunk file more offset sparse.enough))
          sparse.few;
  }

  read_new_complete-stalls :
      (file : List ℕ) (offset : ℕ)
      → from_utf8_lossy [] ≡ []
      → Sparse file offset
      → read_new_complete s from_utf8_lossy file offset ≡ ([], offset)
  unfolding read_new_complete last_complete_boundary
  read_new_complete-stalls file offset empty sparse =
      let kept : ltb (length file) offset ≡ false = ground (arith, sparse.enough) in
      let more : leb (length file) offset ≡ false = ground (arith, sparse.enough) in
      let whole : min (length file - offset) max_read_bytes ≡ max_read_bytes =
        omega (arith, sparse.enough) in
      let none_complete : ltb (headers_in (take max_read_bytes (drop offset file))) 2 ≡ true =
        ground (arith, sparse.few) in
      rw (kept, more, whole, none_complete) (ap₂ (λ text n. (text, n)) empty (omega arith))

  flush_cycle-stalls :
      (file : List ℕ) (c : Cycle) (offset : ℕ)
      → from_utf8_lossy [] ≡ []
      → Sparse file offset
      → flush_cycle s from_utf8_lossy file c offset ≡ ([], offset)
  unfolding flush_cycle
  flush_cycle-stalls file c offset empty sparse =
      elim (Bool-cases (c.readable && (not c.soft_error && c.commits))) [
        | inl through ↦ rw through (read_new_complete-stalls file offset empty sparse)
        | inr aborted ↦ rw aborted refl
      ]

  -- Once one read from the stored offset is full and at most one entry starts in it, the offset never
  -- moves again and nothing is ingested any more, whatever is written after it: the entries behind
  -- those bytes are never reached. Nothing decodes to nothing.
  pub flush_cycles_stall :
      (file : List ℕ) (offset : ℕ) (cs : List Cycle)
      → from_utf8_lossy [] ≡ []
      → Sparse file offset
      → let (texts, last, grown) = flush_cycles s from_utf8_lossy file offset cs in
        (concat texts ≡ []) × (last ≡ offset)
  unfolding flush_cycles
  flush_cycles_stall file offset [] empty sparse = (refl, refl)
  flush_cycles_stall file offset (c ∷ cs) empty sparse =
      let still = grow-Sparse file c.appended offset sparse in
      rw (flush_cycle-stalls (file ++ c.appended) c offset empty still)
        (flush_cycles_stall (file ++ c.appended) offset cs empty still)
