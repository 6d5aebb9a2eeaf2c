-- ===== src/Tail/Reads.antt =====
-- Which bytes of a file the worker of crates/pg_extension/src/bgworker.rs ingests.
use pg_plansight.Prelude.{
  ℕ, zero, suc, ◌+◌, ◌-◌, ◌≤◌, min, ◌≡◌, refl, sym, ap, ap₂, subst, ◌∙◌, inl, inr, false, ◌&&◌, not,
  List, [], ◌∷◌, ◌++◌, map, append-nil, append_assoc, arith, ltb, leb, Bool-cases, length, take,
  drop, length-append, length-take,
}
use pg_plansight.Scan.Verdict.{Simd}
use pg_plansight.Collector.Boundary.{split_inclusive}
use pg_plansight.Collector.Lines.{total, total-split_inclusive, concat}
use pg_plansight.Tail.{
  max_read_bytes, Headers, no_headers, or_start, Cycle, is_entry_header, see_line, see_lines,
  last_complete_boundary, read_new_complete, flush_cycle, flush_cycles,
}

take-take {ℓ} : {A : Type ℓ} (m n : ℕ) (xs : List A) → m ≤ n → take m (take n xs) ≡ take m xs
take-take zero n xs h = refl
take-take (suc m) zero xs h = absurd (omega arith)
take-take (suc m) (suc n) [] h = refl
take-take (suc m) (suc n) (x ∷ xs) h = ap (◌∷◌ x) (take-take m n xs (omega arith))

take-drop {ℓ} : {A : Type ℓ} (n : ℕ) (xs : List A) → take n xs ++ drop n xs ≡ xs
take-drop zero xs = refl
take-drop (suc n) [] = refl
take-drop (suc n) (x ∷ xs) = ap (◌∷◌ x) (take-drop n xs)

drop-append_length {ℓ} : {A : Type ℓ} (xs ys : List A) → drop (length xs) (xs ++ ys) ≡ ys
drop-append_length [] ys = refl
drop-append_length (x ∷ xs) ys = drop-append_length xs ys

module _ (s : Simd) (from_utf8_lossy : List ℕ → List ℕ) where
  see_line-within :
      (h : Headers) (line : List ℕ)
      → or_start h.last_header ≤ h.pos
      → let next = see_line s from_utf8_lossy h line in
        (or_start next.last_header ≤ next.pos) × (next.pos ≡ h.pos + length line)
  unfolding see_line
  see_line-within h line w = elim (Bool-cases (is_entry_header s from_utf8_lossy line)) [
    | inl header ↦ rw (header, or_start) (omega arith, refl)
    | inr other ↦ rw (other, or_start) (omega (arith, w), refl)
  ]

  see_lines-within :
      (h : Headers) (lines : List (List ℕ))
      → or_start h.last_header ≤ h.pos
      → or_start (see_lines s from_utf8_lossy h lines).last_header ≤ h.pos + total lines
  unfolding see_lines
  see_lines-within h [] w = omega (arith, w)
  see_lines-within h (line ∷ lines) w =
      let (within, moved) = see_line-within h line w in
      omega (arith, see_lines-within (see_line s from_utf8_lossy h line) lines within, moved)

  last_complete_boundary-within :
      (bytes : List ℕ) → last_complete_boundary s from_utf8_lossy bytes ≤ length bytes
  unfolding last_complete_boundary
  last_complete_boundary-within bytes =
      let within = see_lines-within no_headers (split_inclusive bytes) (omega arith) in
      let all = total-split_inclusive bytes in
      elim (Bool-cases
        (ltb (see_lines s from_utf8_lossy no_headers (split_inclusive bytes)).header_count 2)) [
          | inl few ↦ rw few (omega arith)
          | inr enough ↦ rw enough (omega (arith, within, all))
        ]

  -- What has been read of a file, and the rest.
  record Read (file : List ℕ) (offset : ℕ) (done : List ℕ) : Type 0 where
    pub rest : List ℕ
    pub cut : file ≡ done ++ rest
    pub ends : length done ≡ offset

  -- A file read so far, as one more cycle leaves it.
  abbrev Next : List ℕ → List ℕ → List ℕ × ℕ → Type 0
  Next file done result =
      (raw : List ℕ) × (result.0 ≡ from_utf8_lossy raw) × Read file result.1 (done ++ raw)

  advance :
      (file : List ℕ) (offset : ℕ) (done : List ℕ) (n b : ℕ)
      → Read file offset done
      → b ≤ length (take n (drop offset file))
      → Read file (offset + b) (done ++ take b (take n (drop offset file)))
  advance file offset done n b r h =
      let long = length-take n (drop offset file) in
      let cut_long = length-take b (take n (drop offset file)) in
      let grown = length-append done (take b (take n (drop offset file))) in
      let left : drop offset file ≡ r.rest =
        ap (drop offset) r.cut
        ∙ ap (λ k. drop k (done ++ r.rest)) (sym r.ends)
        ∙ drop-append_length done r.rest in
      let read : take b (take n (drop offset file)) ≡ take b r.rest =
        take-take b n (drop offset file) (omega (arith, h, long)) ∙ ap (take b) left in
      record {
        rest = drop b r.rest;
        cut =
            r.cut
            ∙ ap (λ xs. done ++ xs) (sym (take-drop b r.rest))
            ∙ sym (append_assoc done (take b r.rest) (drop b r.rest))
            ∙ ap (λ xs. (done ++ xs) ++ drop b r.rest) (sym read);
        ends = omega (arith, grown, cut_long, h, r.ends);
      }

  stay :
      (file : List ℕ) (offset : ℕ) (done : List ℕ)
      → from_utf8_lossy [] ≡ []
      → Read file offset done
      → Next file done ([], offset)
  stay file offset done empty r =
      ([], sym empty, subst (Read file offset) (sym (append-nil done)) r)

  read_new_complete-Next :
      (file : List ℕ) (offset : ℕ) (done : List ℕ)
      → from_utf8_lossy [] ≡ []
      → Read file offset done
      → Next file done (read_new_complete s from_utf8_lossy file offset)
  unfolding read_new_complete
  read_new_complete-Next file offset done empty r =
      let size = ap length r.cut ∙ length-append done r.rest in
      let kept : ltb (length file) offset ≡ false = ground (arith, size, r.ends) in
      elim (Bool-cases (leb (length file) offset)) [
        | inl over ↦ rw (kept, over) (stay file offset done empty r)
        | inr more ↦
            let buf = take (min (length file - offset) max_read_bytes) (drop offset file) in
            rw (kept, more)
              (
                take (last_complete_boundary s from_utf8_lossy buf) buf,
                refl,
                advance file offset done (min (length file - offset) max_read_bytes)
                    (last_complete_boundary s from_utf8_lossy buf) r
                    (last_complete_boundary-within buf),
              )
      ]

  flush_cycle-Next :
      (file : List ℕ) (c : Cycle) (offset : ℕ) (done : List ℕ)
      → from_utf8_lossy [] ≡ []
      → Read file offset done
      → Next file done (flush_cycle s from_utf8_lossy file c offset)
  unfolding flush_cycle
  flush_cycle-Next file c offset done empty r =
      elim (Bool-cases (c.readable && (not c.soft_error && c.commits))) [
        | inl through ↦ rw through (read_new_complete-Next file offset done empty r)
        | inr aborted ↦ rw aborted (stay file offset done empty r)
      ]

  grow-Read :
      (file more : List ℕ) (offset : ℕ) (done : List ℕ)
      → Read file offset done
      → Read (file ++ more) offset done
  grow-Read file more offset done r = record {
    rest = r.rest ++ more;
    cut = ap (λ xs. xs ++ more) r.cut ∙ append_assoc done r.rest more;
    ends = r.ends;
  }

  flush_cycles-Read :
      (file : List ℕ) (offset : ℕ) (done : List ℕ) (cs : List Cycle)
      → from_utf8_lossy [] ≡ []
      → Read file offset done
      → let (texts, last, grown) = flush_cycles s from_utf8_lossy file offset cs in
        (raws : List (List ℕ)) × (texts ≡ map from_utf8_lossy raws)
        × Read grown last (done ++ concat raws)
  unfolding flush_cycles
  flush_cycles-Read file offset done [] empty r =
      ([], refl, subst (Read file offset) (sym (append-nil done)) r)
  flush_cycles-Read file offset done (c ∷ cs) empty r =
      let grown = file ++ c.appended in
      let (raw, text, r1) =
        flush_cycle-Next grown c offset done empty (grow-Read file c.appended offset done r) in
      let (raws, texts, r2) =
        flush_cycles-Read grown (flush_cycle s from_utf8_lossy grown c offset).1 (done ++ raw) cs
          empty r1 in
      (raw ∷ raws, ap₂ ◌∷◌ text texts, subst (Read _ _) (append_assoc done raw (concat raws)) r2)

  -- Over any cycles on a file that only grows, failed reads, soft errors and aborted transactions
  -- included, the ingested texts are decoded from pieces of the file that put together are its bytes
  -- up to the stored offset: nothing is skipped and nothing is read twice. A soft error is taken to
  -- roll the transaction back, and nothing decodes to nothing.
  pub flush_cycles-once :
      (cs : List Cycle)
      → from_utf8_lossy [] ≡ []
      → let (texts, last, grown) = flush_cycles s from_utf8_lossy [] 0 cs in
        (raws : List (List ℕ)) × (rest : List ℕ) × (texts ≡ map from_utf8_lossy raws)
        × (grown ≡ concat raws ++ rest)
        × (length (concat raws) ≡ last)
  flush_cycles-once cs empty =
      let (raws, texts, r) =
        flush_cycles-Read [] 0 [] cs empty record { rest = []; cut = refl; ends = refl } in
      (raws, r.rest, texts, r.cut, r.ends)
